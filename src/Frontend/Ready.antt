-- ===== src/Frontend/Ready.antt =====
-- What the flags of `_compute_readiness` of core/ipyflow/frontend.py mean.
use ipyflow.Base.{
  ℕ, Bool, true, false, Option, some, List, [], ◌∷◌, pos, elem, diff, ltb_ℤ, ◌&&◌, ◌||◌, not, ◌≡◌,
  refl, ap, subst, if◌then◌else◌, arith,
}
use mathlib.Core.List.{Memᴰ}
use mathlib.Core.List.Memᴰ.{head, tail}
use ipyflow.Config.Contexts.{
  MutableDataflowSettings, SlicingContext, slicing_contexts, is_enabled,
  slicing_contexts-is_enabled,
}
use ipyflow.Slicing.EdgeSets.{Edges}
use ipyflow.Cells.{Registry}
use ipyflow.Cells.Lookup.{from_id}
use ipyflow.Cells.Positions.{directional_parents}
use ipyflow.Frontend.Checker.{CheckerResult, uses_dag}
use ipyflow.Frontend.View.{View, Latest, get_latest_parent_by_ts_map}
use ipyflow.Cells.Partial.{Holds, Holds-bind, Holds-if}
use ipyflow.Frontend.Readiness.{
  Flags, neither, is_superseded, is_newer, should_skip, scan_parents, scan_contexts, dag_readiness,
  liveness_readiness, compute_readiness,
}

module _ (settings : MutableDataflowSettings) (view : View) (g : Registry) (self : ℕ) where
  -- the symbols of an edge that count
  abbrev given_by : List ℕ → List ℕ
  given_by raw_syms = diff raw_syms (g.cell self).static_removed_symbols

  -- The three tests of an edge: a fake one, a newer one, and one that is new to the flow.
  abbrev is_fake : ℕ → List ℕ → Bool
  is_fake par raw_syms =
      elem view.fake_edge_sym (given_by raw_syms)
      && ltb_ℤ (g.cell self).cell_ctr (pos 0)
      && ltb_ℤ (pos 0) (g.cell par).cell_ctr

  abbrev is_later : ℕ → List ℕ → Bool
  is_later par raw_syms =
      is_newer settings view (g.cell self).cell_ctr (g.cell par).cell_ctr (given_by raw_syms)

  abbrev is_fresh : ℕ → Bool
  is_fresh par =
      not (ltb_ℤ (g.cell par).cell_ctr view.min_new_ready_cell_counter)
      && ltb_ℤ (pos 0) (g.cell self).cell_ctr

  -- A parent edge, in an enabled context, that makes the cell ready: its symbols are newer than the
  -- cell, or it is a fake edge from a parent that has run to a cell that has not.
  pub record Prompt : Type 0 where
    pub context : SlicingContext
    pub parents : Edges
    pub enabled : is_enabled settings context ≡ true
    pub reads : directional_parents settings g context self ≡ some parents
    pub pid : ℕ
    pub raw_syms : List ℕ
    pub listed : Memᴰ (pid, raw_syms) parents
    pub par : ℕ
    pub names : from_id g pid ≡ some par
    pub prompts : (is_fake par raw_syms || is_later par raw_syms) ≡ true

  -- A newly ready cell is ready and has run, and a ready one has a prompt.
  pub record IsJustified (flags : Flags) : Type 0 where
    pub new_ready :
        flags.is_new_ready ≡ true → (flags.is_ready && ltb_ℤ (pos 0) (g.cell self).cell_ctr) ≡ true
    pub ready : flags.is_ready ≡ true → Prompt

  neither-IsJustified : IsJustified neither
  neither-IsJustified = record { new_ready = λ e. cc; ready = λ e. cc }

  readied :
      (flags : Flags) → IsJustified flags → Prompt → IsJustified (record flags { is_ready = true })
  readied flags j why = record { new_ready = λ e. ground (arith, j.new_ready e); ready = λ e. why }

  newly :
      Prompt
      → ltb_ℤ (pos 0) (g.cell self).cell_ctr ≡ true
      → IsJustified (record { is_ready = true; is_new_ready = true })
  newly why ran = record { new_ready = λ e. ran; ready = λ e. why }

  module _ (context : SlicingContext) (latest : Option Latest) (all : Edges)
      (enabled : is_enabled settings context ≡ true)
      (reads : directional_parents settings g context self ≡ some all) where
    found :
        (e : ℕ × List ℕ)
        → Memᴰ e all
        → (par : ℕ) → from_id g e.0 ≡ some par
        → (is_fake par e.1 || is_later par e.1) ≡ true
        → Prompt
    found (pid, raw_syms) listed par names why = record {
      context = context;
      parents = all;
      enabled = enabled;
      reads = reads;
      pid = pid;
      raw_syms = raw_syms;
      listed = listed;
      par = par;
      names = names;
      prompts = why;
    }

    scan_parents-IsJustified :
        (edges : Edges)
        → ((e : ℕ × List ℕ) → Memᴰ e edges → Memᴰ e all)
        → (flags : Flags) → IsJustified flags
        → Holds IsJustified (scan_parents settings view g context latest all self edges flags)
    unfolding scan_parents
    scan_parents-IsJustified [] within flags j = j
    scan_parents-IsJustified ((pid, raw_syms) ∷ edges) within flags j =
        let go = scan_parents-IsJustified edges (λ e m. within e (tail m)) in
        Holds-bind IsJustified (from_id g pid) _ λ par names.
          let prompt = found (pid, raw_syms) (within (pid, raw_syms) (head refl)) par names in
          Holds-if IsJustified (is_fake par raw_syms) _ _
            (λ fake. readied flags j (prompt (ap (λ b. b || is_later par raw_syms) fake)))
            λ real.
              Holds-bind IsJustified (is_superseded view g latest pid (given_by raw_syms)) _
                λ late _.
                  Holds-if IsJustified late _ _ (λ _. go flags j)
                    λ _.
                      Holds-if IsJustified (not (is_later par raw_syms)) _ _ (λ _. go flags j)
                        λ newer.
                          Holds-bind IsJustified
                            (should_skip settings view g context par (given_by raw_syms) all) _
                            λ skip _.
                              Holds-if IsJustified skip _ _ (λ _. go flags j)
                                λ _.
                                  Holds-if IsJustified (is_fresh par) _ _
                                    (λ fresh. newly (prompt (ground arith)) (ground arith))
                                    λ _. go _ (readied flags j (prompt (ground arith)))

  scan_contexts-IsJustified :
      (latest : Option Latest) (contexts : List SlicingContext)
      → ((c : SlicingContext) → Memᴰ c contexts → is_enabled settings c ≡ true)
      → (flags : Flags) → IsJustified flags
      → Holds IsJustified (scan_contexts settings view g latest self contexts flags)
  unfolding scan_contexts
  scan_contexts-IsJustified latest [] on flags j = j
  scan_contexts-IsJustified latest (context ∷ contexts) on flags j =
      Holds-if IsJustified flags.is_new_ready _ _ (λ _. j)
        λ _. Holds-bind IsJustified (directional_parents settings g context self) _ λ parents reads.
          Holds-bind IsJustified
            (scan_parents settings view g context latest parents self parents flags) _
            λ flags' e.
              scan_contexts-IsJustified latest contexts (λ c m. on c (tail m)) flags'
                (subst (Holds IsJustified) e (
                  scan_parents-IsJustified context latest parents (on context (head refl)) reads
                    parents (λ x m. m) flags j))

  dag_readiness-IsJustified : Holds IsJustified (dag_readiness settings view g self)
  unfolding dag_readiness
  dag_readiness-IsJustified =
      Holds-bind IsJustified (get_latest_parent_by_ts_map settings view g self) _ λ latest _.
        scan_contexts-IsJustified latest (slicing_contexts settings)
          (slicing_contexts-is_enabled settings) neither neither-IsJustified

  edges-IsJustified :
      Holds IsJustified (
        if uses_dag settings.exec_schedule
        then dag_readiness settings view g self
        else some neither)
  edges-IsJustified =
      Holds-if IsJustified (uses_dag settings.exec_schedule) _ _ (λ _. dag_readiness-IsJustified)
        λ _. neither-IsJustified

  abbrev IsSound : CheckerResult → Flags → Type 0
  IsSound res flags =
      ((flags.is_ready && elem (g.cell self).cell_id res.waiting_cells) ≡ false)
      × ((flags.is_new_ready && not (flags.is_ready && ltb_ℤ (pos 0) (g.cell self).cell_ctr))
          ≡ false)

  liveness_readiness-IsSound :
      (res : CheckerResult) (flags : Flags)
      → elem (g.cell self).cell_id res.waiting_cells ≡ false
      → IsJustified flags
      → IsSound res (liveness_readiness settings view g self flags)
  unfolding liveness_readiness
  liveness_readiness-IsSound res flags free j = ground (arith, j.new_ready)

  compute_readiness-IsSound :
      (res : CheckerResult) → Holds (IsSound res) (compute_readiness settings view res g self)
  unfolding compute_readiness
  compute_readiness-IsSound res =
      Holds-if (IsSound res) (elem (g.cell self).cell_id res.waiting_cells) _ _ (λ _. (refl, refl))
        λ free.
          Holds-bind (IsSound res)
            (if uses_dag settings.exec_schedule
              then dag_readiness settings view g self
              else some neither)
            _
            λ flags e.
              liveness_readiness-IsSound res flags free
                (subst (Holds IsJustified) e edges-IsJustified)

  -- However the flags are found, a cell that waits is not ready, and a newly ready cell is ready and
  -- has run.
  pub compute_readiness_lem :
      (res : CheckerResult) (flags : Flags)
      → compute_readiness settings view res g self ≡ some flags
      → ((flags.is_ready && elem (g.cell self).cell_id res.waiting_cells) ≡ false)
        × ((flags.is_new_ready && not (flags.is_ready && ltb_ℤ (pos 0) (g.cell self).cell_ctr))
            ≡ false)
  compute_readiness_lem res flags e = subst (Holds (IsSound res)) e (compute_readiness-IsSound res)

  abbrev IsPrompted : Flags → Type 0
  IsPrompted flags = flags.is_ready ≡ true → Prompt
