-- ===== src/Cells/Tracking.antt =====
-- What `Cell.create_and_track` of core/ipyflow/data_model/cell.py does.
use Prim.Native.String.{String}
use ipyflow.Base.{
  ℕ, Dict, ◌&&◌, not, ◌+◌, ◌≤◌, ◌<◌, ◌≡◌, refl, sym, ap, ◌∙◌, subst, true, Option, none, some, List,
  [], ◌∷◌, ◌++◌, ◌⊎◌, inl, inr, lookup, has, lookup-insert, union, ℤ, pos, negsuc, minus_one, ◌≤ℤ◌,
  ltb_ℤ, ◌==◌, Bool-cases, Option-cases, if◌then◌else◌, arith,
}
use mathlib.Core.Option.{some-injective}
use ipyflow.Cells.{Cell, Registry, is_executed}
use ipyflow.Cells.Lookup.{from_id, at_counter, ◌>>=◌}
use ipyflow.Cells.Create.{
  Ipython, Options, fresh_cell, succeed, next_counter, count_cell, track_first, track_next,
  create_with, create_and_track, saved_after,
}
use ipyflow.Cells.Invariant.{IsTracked, Extends, Extends-IsTracked, new_cell}

-- The dictionary of counters gains at most the new cell, at its own counter.
count_cell_lem :
    (z : ℤ) (new m r : ℕ) (by_ctr : Dict ℕ)
    → lookup m (count_cell z new by_ctr) ≡ some r
    → (lookup m by_ctr ≡ some r) ⊎ (r ≡ new) × (z ≡ pos m)
unfolding count_cell
count_cell_lem (negsuc _) new m r by_ctr e = inl e
count_cell_lem (pos n) new m r by_ctr e = elim (Bool-cases (m == n)) [
  | inl same ↦ inr (ground (arith, lookup-insert m n new by_ctr))
  | inr other ↦ inl (ground (arith, lookup-insert m n new by_ctr))
]

-- And it does have it there.
count_cell_own :
    (z : ℤ) (new m : ℕ) (by_ctr : Dict ℕ)
    → z ≡ pos m
    → lookup m (count_cell z new by_ctr) ≡ some new
unfolding count_cell
count_cell_own (negsuc _) new m by_ctr e = cc
count_cell_own (pos n) new m by_ctr e = ground (arith, lookup-insert m n new by_ctr)

module _ (g : Registry) (v : IsTracked g) (id k : ℕ) (c : Cell) (same : c.cell_id ≡ id) where
  pub track_first-Extends :
      c.prev_cell ≡ none
      → lookup id g.current_cell_by_cell_id ≡ none
      → g.cell_counter ≤ k
      → c.cell_ctr ≤ℤ pos k
      → Extends g (track_first id c (record g { cell_counter = k })) id c
  unfolding track_first has
  track_first-Extends first absent mono bound = record {
    cells = λ r. refl;
    one_more = refl;
    current = λ j. lookup-insert j id g.next_cell g.current_cell_by_cell_id;
    counters = λ m r e. count_cell_lem c.cell_ctr g.next_cell m r g.cell_by_cell_ctr e;
    own_counter = λ m e. count_cell_own c.cell_ctr g.next_cell m g.cell_by_cell_ctr e;
    named = same;
    succeeds = first ∙ sym absent;
    counter_mono = mono;
    counter_bound = bound;
    newest = λ r lt e.
        let known = v.registered r lt in
        absurd (
          ground (
            arith,
            λ (q : (g.cell r).cell_id ≡ id). ap (λ j. lookup j g.current_cell_by_cell_id) q,
          ));
  }

  pub track_next-Extends :
      (p : ℕ)
      → c.prev_cell ≡ some p
      → lookup id g.current_cell_by_cell_id ≡ some p
      → g.cell_counter < k
      → c.cell_ctr ≡ pos k
      → Extends g (track_next p id c (record g { cell_counter = k })) id (succeed (g.cell p) c)
  unfolding track_next
  track_next-Extends p is_prev found ahead ctr =
      let bound : (r : ℕ) → r < g.next_cell → (g.cell r).cell_ctr ≤ℤ pos g.cell_counter =
        v.bounded in
      let prev_bound = bound p (v.current_old id p found) in
      let later : ltb_ℤ (g.cell p).cell_ctr c.cell_ctr ≡ true = ground arith in
      record {
        cells = λ r. refl;
        one_more = refl;
        current = λ j. rw later (lookup-insert j id g.next_cell g.current_cell_by_cell_id);
        counters = λ m r e. count_cell_lem c.cell_ctr g.next_cell m r g.cell_by_cell_ctr e;
        own_counter = λ m e. count_cell_own c.cell_ctr g.next_cell m g.cell_by_cell_ctr e;
        named = same;
        succeeds = is_prev ∙ sym found;
        counter_mono = omega arith;
        counter_bound = ground arith;
        newest = λ r lt e. ground (arith, bound r lt);
      }

-- Whichever counter a bumped cell gets, it is one that no cell had.
next_counter_ahead :
    (ip : Ipython) (o : Options) (g : Registry)
    → o.bump_cell_counter ≡ true
    → g.cell_counter < ip.execution_count
    → (n : ℕ) × (next_counter ip o g ≡ (pos n, n)) × (g.cell_counter < n)
unfolding next_counter
next_counter_ahead ip o g bumps ahead =
    elim (Bool-cases (o.validate_ipython_counter && not (g.cell_counter + 1 == ip.saved_counter))) [
      | inl fixed ↦ (ip.execution_count, rw (bumps, fixed) refl, ahead)
      | inr fine ↦ (g.cell_counter + 1, rw (bumps, fine) refl, omega arith)
    ]

some_eq : {a b : ℕ × Registry} → some a ≡ some b → a ≡ b
some_eq e = some-injective _ _ e

counted_ctr : (k : ℕ) → ltb_ℤ minus_one (pos k) ≡ true
counted_ctr k = ground arith

-- A new version continues the history of the previous one and names the same dictionaries of
-- children.
abbrev pub TakesOver : Registry → Option ℕ → Cell → Type 0
TakesOver g none c = Unit
TakesOver g (some p) c =
    (c.history ≡ (g.cell p).history ++ c.cell_ctr ∷ [])
    × (c.raw_dynamic_children ≡ (g.cell p).raw_dynamic_children)
    × (c.raw_static_children ≡ (g.cell p).raw_static_children)

module _ (o : Options) (id : ℕ) (content : String) (tags : List ℕ) (g : Registry)
    (v : IsTracked g) where
  -- How the registry has grown when a call returns the cell `r`.
  abbrev Tracked : ℕ × Registry → Type 0
  Tracked (r, h) =
      (r ≡ g.next_cell)
      × ((c : Cell) × Extends g h id c
          × (c.current_content ≡ content)
          × TakesOver g (lookup id g.current_cell_by_cell_id) c)

  create_first :
      (z : ℤ) (k : ℕ)
      → g.cell_counter ≤ k
      → z ≤ℤ pos k
      → lookup id g.current_cell_by_cell_id ≡ none
      → (r : ℕ × Registry) × (create_with o id content tags (z, k) g ≡ some r) × Tracked r
  unfolding create_with
  create_first z k mono bound absent =
      let c =
        fresh_cell id z content tags none o.placeholder_id o.memoized_output_level g.next_dict in
      (
        (g.next_cell, track_first id c (record g { cell_counter = k })),
        rw (absent, create_with, from_id) refl,
        (refl, (c, track_first-Extends g v id k c refl refl absent mono bound, refl, rw absent tt)),
      )

  create_next :
      (k p : ℕ)
      → o.bump_cell_counter ≡ true
      → g.cell_counter < k
      → lookup id g.current_cell_by_cell_id ≡ some p
      → (r : ℕ × Registry) × (create_with o id content tags (pos k, k) g ≡ some r) × Tracked r
  unfolding create_with
  create_next k p bumps ahead found =
      let c =
        fresh_cell id (pos k) content (union tags (g.cell p).tags) (some p) o.placeholder_id
          o.memoized_output_level g.next_dict in
      (
        (g.next_cell, track_next p id c (record g { cell_counter = k })),
        rw (found, bumps, create_with, from_id) refl,
        (
          refl,
          (
            succeed (g.cell p) c,
            track_next-Extends g v id k c refl p refl found ahead refl,
            unfold succeed in refl,
            rw found (
                unfold succeed in
                (
                  ap (λ b. (g.cell p).history ++ (if b then pos k ∷ [] else [])) (counted_ctr k),
                  refl,
                  refl,
                )),
          ),
        ),
      )

-- the cell and the registry that a call yields
abbrev pub made_of : Option ((ℕ × Registry) × Ipython) → Option (ℕ × Registry)
made_of none = none
made_of (some (made, _)) = some made

-- What a call that creates a cell with the given identifier and content yields.
abbrev pub Creates : Registry → ℕ → String → Option ((ℕ × Registry) × Ipython) → Type 0
Creates g id content made =
    (r : ℕ) × ((h : Registry) × (made_of made ≡ some (r, h))
      × IsTracked h
      × (r ≡ g.next_cell)
      × ((j : ℕ) → from_id h j ≡ (if j == id then some r else from_id g j))
      × (at_counter h (h.cell r).cell_ctr ≡ (if is_executed (h.cell r) then some r else none))
      × ((h.cell r).prev_cell ≡ from_id g id)
      × ((h.cell r).current_content ≡ content)
      × TakesOver g (from_id g id) (h.cell r)
      × (g.cell_counter ≤ h.cell_counter))

at_own_counter :
    (h : Registry) (r : ℕ)
    → ((m : ℕ) → (h.cell r).cell_ctr ≡ pos m → lookup m h.cell_by_cell_ctr ≡ some r)
    → at_counter h (h.cell r).cell_ctr ≡ (if is_executed (h.cell r) then some r else none)
unfolding at_counter is_executed
at_own_counter h r own = by_sign (h.cell r).cell_ctr refl
  where
    by_sign :
        (z : ℤ)
        → (h.cell r).cell_ctr ≡ z
        → at_counter h (h.cell r).cell_ctr ≡ (if is_executed (h.cell r) then some r else none)
    by_sign (pos m) e = rw e (own m e ∙ ground arith)
    by_sign (negsuc _) e = rw e (ground arith)

module _ (ip : Ipython) (o : Options) (id : ℕ) (content : String) (tags : List ℕ) (g : Registry)
    (v : IsTracked g) (ahead : g.cell_counter < ip.execution_count) where
  -- Each call that passes the assertion grows the registry by one cell.
  tracks :
      (o.bump_cell_counter ≡ true) ⊎ (lookup id g.current_cell_by_cell_id ≡ none)
      → (r : ℕ × Registry) × (create_with o id content tags (next_counter ip o g) g ≡ some r)
        × Tracked o id content tags g v r
  tracks fits = elim (Bool-cases o.bump_cell_counter) [
    | inl bumps ↦
        let (n, counted, later) = next_counter_ahead ip o g bumps ahead in
        elim (Option-cases (lookup id g.current_cell_by_cell_id)) [
          | inl absent ↦
              rw counted
                (create_first o id content tags g v (pos n) n (omega arith) (omega arith) absent)
          | inr (p, found) ↦ rw counted (create_next o id content tags g v n p bumps later found)
        ]
    | inr plain ↦
        let counted : next_counter ip o g ≡ (minus_one, g.cell_counter) =
          unfold next_counter in rw plain refl in
        let absent : lookup id g.current_cell_by_cell_id ≡ none = elim fits [
          | inl bumps ↦ absurd (ground arith)
          | inr gone ↦ gone
        ] in
        rw counted (
          create_first o id content tags g v minus_one g.cell_counter (omega arith) (omega arith)
            absent)
  ]

  -- From a well-formed registry, where IPython's execution count is past the last counter, a cell
  -- that is bumped, or that has no previous version, is created: the call returns a new object, the
  -- registry stays well-formed, the cell is the current one of its identifier and the cell of its
  -- counter, its previous version is the one that was current, whose history and dictionaries of
  -- children it takes over, and no other identifier's current cell changes.
  pub create_and_track_lem :
      (o.bump_cell_counter ≡ true) ⊎ (from_id g id ≡ none)
      → Creates g id content (create_and_track ip o id content tags g)
  unfolding from_id at_counter create_and_track
  create_and_track_lem fits =
      let (made, e, t) = tracks fits in
      let (r, h) = made in
      let (is_new, grown) = t in
      let (c, x, same, takes) = grown in
      let at_r : h.cell r ≡ c = ap h.cell is_new ∙ new_cell g h id c v x in
      (
        r,
        (
          h,
          ap (λ (m : Option (ℕ × Registry)). made_of (m >>= λ x'. some (x', saved_after ip o g))) e,
          Extends-IsTracked g h id c v x,
          is_new,
          λ j. rw is_new (x.current j),
          at_own_counter h r (λ m ctr.
              rw is_new (x.own_counter m (sym (ap (λ (d : Cell). d.cell_ctr) at_r) ∙ ctr))),
          ap (λ (d : Cell). d.prev_cell) at_r ∙ x.succeeds,
          ap (λ (d : Cell). d.current_content) at_r ∙ same,
          subst (TakesOver g (lookup id g.current_cell_by_cell_id)) (sym at_r) takes,
          x.counter_mono,
        ),
      )
