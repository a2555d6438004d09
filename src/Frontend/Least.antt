-- ===== src/Frontend/Least.antt =====
-- The loop of `_compute_dag_based_waiters` (core/ipyflow/frontend.py) ends, with the least set of
-- waiting cells.
use ipyflow.Base.{
  ℕ, zero, suc, ◌+◌, ◌≤◌, ◌<◌, ◌≡◌, refl, ◌↔◌, inl, inr, true, some, List, [], elem, elem-nil,
  subset_sound, length, length-keep-le, Bool-cases, not, arith,
}
use mathlib.Core.Bool.{Bool-set}
use mathlib.Core.Logic.{∥∥₁_elim}
use ipyflow.Frontend.Waiting.{Checked, meets, pass, same_set, passes}
use ipyflow.Frontend.Fixpoint.{
  Listed, Waits, given, for_ready, for_waiting, meets_mono, meets_complete, pass_grows, pass_closed,
  pass-Sound, pass_settles, unsettled, ids, length-ids,
}

module _ (ready start : List ℕ) (cs : List Checked) where
  -- What the loop returns: all that waited, only cells that wait, and closed under waiting.
  pub record Settled (w result : List ℕ) : Type 0 where
    pub grows : (x : ℕ) → elem x w ≡ true → elem x result ≡ true
    pub sound : (x : ℕ) → elem x result ≡ true → Waits ready start cs x
    pub closed :
        (id : ℕ) (ps : List ℕ)
        → Listed cs id ps
        → meets ps ready result ≡ true
        → elem id result ≡ true

  abbrev Sound : List ℕ → Type 0
  Sound w = (x : ℕ) → elem x w ≡ true → Waits ready start cs x

  Sound-pass : (w : List ℕ) → Sound w → Sound (pass ready cs w)
  Sound-pass w s = pass-Sound ready start cs cs (λ id ps l. l) w s

  -- A pass that ends with a set that was included in what it began with.
  Settled-stop :
      (prev w : List ℕ)
      → Sound w
      → ((x : ℕ) → elem x prev ≡ true → elem x w ≡ true)
      → same_set prev (pass ready cs w) ≡ true
      → Settled w (pass ready cs w)
  unfolding same_set
  Settled-stop prev w s before stop = record {
    grows = pass_grows ready cs w;
    sound = Sound-pass w s;
    closed = λ id ps l hit. pass_closed ready l w (
        meets_mono ps ready (pass ready cs w) w
          (λ x m. before x (subset_sound (pass ready cs w) prev x (ground arith) m)) hit);
  }

  Settled-pass : (w result : List ℕ) → Settled (pass ready cs w) result → Settled w result
  Settled-pass w result t = record {
    grows = λ x m. t.grows x (pass_grows ready cs w x m);
    sound = t.sound;
    closed = t.closed;
  }

  passes_lem :
      (fuel : ℕ) (w : List ℕ)
      → Sound w
      → unsettled cs w < fuel
      → (result : List ℕ) × (passes fuel ready cs w w ≡ some result) × Settled w result
  unfolding passes
  passes_lem zero w s h = absurd (omega arith)
  passes_lem (suc fuel) w s h = elim (Bool-cases (same_set w (pass ready cs w))) [
    | inl stop ↦ (pass ready cs w, rw stop refl, Settled-stop w w s (λ x m. m) stop)
    | inr more ↦
        let (result, e, t) =
          passes_lem fuel (pass ready cs w) (Sound-pass w s)
            (omega (arith, pass_settles ready cs w more)) in
        (result, rw more e, Settled-pass w result t)
  ]

  unsettled-le : (w : List ℕ) → unsettled cs w ≤ length cs
  unfolding unsettled
  unsettled-le w = omega (arith, length-keep-le (λ x. not (elem x w)) (ids cs), length-ids cs)

  -- A walk from what waits at the start stays inside a closed set.
  Waits-elem :
      (result : List ℕ)
      → Settled start result
      → (x : ℕ) → Waits ready start cs x
      → elem x result ≡ true
  Waits-elem result t x (given m) = t.grows x m
  Waits-elem result t x (for_ready {ps = ps} l p m r) =
      t.closed x ps l (meets_complete p ps ready result m (ground arith))
  Waits-elem result t x (for_waiting {ps = ps} l p m k) =
      let inside = Waits-elem result t p k in
      t.closed x ps l (meets_complete p ps ready result m (ground arith))

  -- With more fuel than there are cells to check, the loop ends. A cell waits at its end exactly
  -- when it waited at the start, or is a checked cell with a parent that is ready or waits.
  pub passes-eq-Waits :
      (fuel : ℕ)
      → length cs + 1 < fuel
      → (result : List ℕ) × (passes fuel ready cs [] start ≡ some result)
        × ((x : ℕ) → (elem x result ≡ true) ↔ ∥ Waits ready start cs x ∥₁)
  unfolding passes
  passes-eq-Waits zero h = absurd (omega arith)
  passes-eq-Waits (suc fuel) h =
      let s : Sound start = λ x m. given m in
      let answer = λ (result : List ℕ) (t : Settled start result) (x : ℕ). pair_iff result t x in
      elim (Bool-cases (same_set [] (pass ready cs start))) [
        | inl stop ↦
            let t = Settled-stop [] start s (λ x m. absurd (ground (arith, elem-nil x))) stop in
            (pass ready cs start, rw stop refl, answer (pass ready cs start) t)
        | inr more ↦
            let (result, e, t) =
              passes_lem fuel (pass ready cs start) (Sound-pass start s)
                (omega (arith, unsettled-le (pass ready cs start))) in
            (result, rw more e, answer result (Settled-pass start result t))
      ]
    where
      pair_iff :
          (result : List ℕ)
          → Settled start result
          → (x : ℕ) → (elem x result ≡ true) ↔ ∥ Waits ready start cs x ∥₁
      pair_iff result t x =
          (λ m. ∣ t.sound x m ∣₁, λ k. ∥∥₁_elim k (Bool-set _ _) (Waits-elem result t x))
