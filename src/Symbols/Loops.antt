-- ===== src/Symbols/Loops.antt =====
-- Loops over the symbols that a round of core/ipyflow/data_model/utils/update_protocol.py visits.
use ipyflow.Base.{
  ℕ, ◌≡◌, refl, sym, subst, true, Option, some, List, [], ◌∷◌, elem, elem-nil, elem-cons,
  Bool-cases, ==_iff, inl, inr, ◌==◌, arith,
}
use ipyflow.Symbols.Times.{for_each}
use ipyflow.Symbols.Refresh.{Walk}
use ipyflow.Symbols.Spread.{Marks, Spreads, Spreads-same, Spreads-trans}

module _ (k : Marks) (open_syms : List ℕ) where
  -- a loop whose rounds keep what they need and what they are for
  pub for_each-Spreads :
      (Pre : Walk → Type 0) (Post : ℕ → Walk → Type 0) (visit : ℕ → Walk → Option Walk)
      → ((a b : Walk) → Spreads k open_syms a b → Pre a → Pre b)
      → ((r : ℕ) (a b : Walk) → Spreads k open_syms a b → Post r a → Post r b)
      → (rs : List ℕ)
      → ((r : ℕ) (w : Walk)
          → elem r rs ≡ true
          → Pre w
          → (w' : Walk) × (visit r w ≡ some w') × Spreads k open_syms w w' × Post r w')
      → (w : Walk) → Pre w
      → (w' : Walk) × (for_each visit rs w ≡ some w')
        × Spreads k open_syms w w'
        × ((r : ℕ) → elem r rs ≡ true → Post r w')
  unfolding for_each
  for_each-Spreads Pre Post visit pre post [] each w p = (
    w,
    refl,
    Spreads-same k open_syms w w (λ g. refl) (λ x. refl) (λ x m. m),
    λ r m. absurd (ground (arith, elem-nil r)),
  )
  for_each-Spreads Pre Post visit pre post (r ∷ rs) each w p =
      let (w₁, ran, first, done) = each r w (ground (arith, elem-cons r r rs)) p in
      let (w₂, others, rest, all_done) =
        for_each-Spreads Pre Post visit pre post rs
          (λ q v m. each q v (ground (arith, elem-cons q r rs))) w₁ (pre w w₁ first p) in
      (
        w₂,
        rw ran others,
        Spreads-trans k open_syms w w₁ w₂ first rest,
        λ q m. elim (Bool-cases (q == r)) [
          | inl same ↦ subst (λ z. Post z w₂) (sym ((==_iff q r).0 same)) (post r w₁ w₂ rest done)
          | inr differs ↦ all_done q (ground (arith, elem-cons q r rs))
        ],
      )
