-- ===== src/Symbols/Spread.antt =====
-- What a round of core/ipyflow/data_model/utils/update_protocol.py does to the symbols that it sees.
use ipyflow.Base.{
  ℕ, ◌≡◌, refl, sym, subst, ap, ◌∙◌, ==_iff, inl, inr, Bool, true, false, List, ◌∷◌, elem,
  elem-cons, Bool-cases, ◌==◌, arith,
}
use ipyflow.Symbols.{Store}
use ipyflow.Symbols.Refresh.{Walk, see}
use ipyflow.Symbols.Skeleton.{SameBones, SameBones-trans}

-- What a recursion is for: facts that it does not undo, which of them marks a symbol, which symbols
-- should be marked, and which symbols follow from one.
pub record Marks : Type 1 where
  pub facts : Type 0
  pub is_kept : facts → List ℕ → Store → Type 0
  pub widens :
      (f : facts) (s t : List ℕ)
      → ((x : ℕ) → elem x s ≡ true → elem x t ≡ true)
      → (st : Store) → is_kept f s st
      → is_kept f t st
  pub mark_of : ℕ → facts
  pub should : ℕ → Bool
  pub deps : ℕ → List ℕ

module _ (m : Marks) where
  -- From `a` to `b` nothing is forgotten, and what is new is marked, where it should be; what was
  -- computed from it is seen too, but for the symbols of `open`.
  pub record Spreads (open_syms : List ℕ) (a b : Walk) : Type 0 where
    pub grows : (x : ℕ) → elem x a.seen ≡ true → elem x b.seen ≡ true
    pub keeps : (f : m.facts) → m.is_kept f a.seen a.store → m.is_kept f b.seen b.store
    pub marked :
        (x : ℕ)
        → elem x b.seen ≡ true
        → elem x a.seen ≡ false
        → m.should x ≡ true
        → m.is_kept (m.mark_of x) b.seen b.store
    pub same : SameBones a.store b.store
    pub closed :
        (x y : ℕ)
        → elem x b.seen ≡ true
        → elem x a.seen ≡ false
        → elem x open_syms ≡ false
        → elem y (m.deps x) ≡ true
        → elem y b.seen ≡ true

  -- a change of marks only
  pub Spreads-same :
      (open_syms : List ℕ) (a b : Walk)
      → SameBones a.store b.store
      → ((x : ℕ) → elem x b.seen ≡ elem x a.seen)
      → ((f : m.facts) → m.is_kept f a.seen a.store → m.is_kept f a.seen b.store)
      → Spreads open_syms a b
  Spreads-same open_syms a b bones same keeps = record {
    same = bones;
    grows = λ x old. same x ∙ old;
    keeps = λ f k. m.widens f a.seen b.seen (λ x old. same x ∙ old) b.store (keeps f k);
    marked = λ x old new s. absurd (ground (arith, same x));
    closed = λ x y old new o d. absurd (ground (arith, same x));
  }

  pub Spreads-trans :
      (open_syms : List ℕ) (a b c : Walk)
      → Spreads open_syms a b
      → Spreads open_syms b c
      → Spreads open_syms a c
  Spreads-trans open_syms a b c p q = record {
    same = SameBones-trans a.store b.store c.store p.same q.same;
    grows = λ x old. q.grows x (p.grows x old);
    keeps = λ f k. q.keeps f (p.keeps f k);
    marked = λ x got new s. elim (Bool-cases (elem x b.seen)) [
      | inl old ↦ q.keeps (m.mark_of x) (p.marked x old new s)
      | inr newer ↦ q.marked x got newer s
    ];
    closed = λ x y got new o d. elim (Bool-cases (elem x b.seen)) [
      | inl old ↦ q.grows y (p.closed x y old new o d)
      | inr newer ↦ q.closed x y got newer o d
    ];
  }

  -- Where fewer symbols are open, those in between must be closed by then.
  pub Spreads-close :
      (wide narrow : List ℕ) (a b : Walk)
      → Spreads wide a b
      → ((x y : ℕ)
          → elem x wide ≡ true
          → elem x narrow ≡ false
          → elem y (m.deps x) ≡ true
          → elem y b.seen ≡ true)
      → Spreads narrow a b
  Spreads-close wide narrow a b p k = record {
    same = p.same;
    grows = p.grows;
    keeps = p.keeps;
    marked = p.marked;
    closed = λ x y got new o d. elim (Bool-cases (elem x wide)) [
      | inl is_open ↦ k x y is_open o d
      | inr shut ↦ p.closed x y got new shut d
    ];
  }

  -- A symbol is seen, and then what follows from it.
  pub Spreads-enter :
      (open_syms : List ℕ) (self : ℕ) (a b : Walk)
      → Spreads open_syms (see self a) b
      → (m.should self ≡ true → m.is_kept (m.mark_of self) b.seen b.store)
      → ((y : ℕ) → elem self open_syms ≡ false → elem y (m.deps self) ≡ true → elem y b.seen ≡ true)
      → Spreads open_syms a b
  unfolding see
  Spreads-enter open_syms self a b p is_marked done = record {
    same = p.same;
    grows = λ x old. p.grows x (ground (arith, elem-cons x self a.seen));
    keeps = λ f k. p.keeps f (
        m.widens f a.seen (self ∷ a.seen) (λ x old. ground (arith, elem-cons x self a.seen)) a.store
          k);
    marked = λ x got new s. elim (Bool-cases (x == self)) [
      | inl same ↦
          let e = (==_iff x self).0 same in
          subst (λ z. m.is_kept (m.mark_of z) b.seen b.store) (sym e)
            (is_marked (subst (λ z. m.should z ≡ true) e s))
      | inr differs ↦ p.marked x got (ground (arith, elem-cons x self a.seen)) s
    ];
    closed = λ x y got new o d. elim (Bool-cases (x == self)) [
      | inl same ↦
          let e = (==_iff x self).0 same in
          done y (subst (λ z. elem z open_syms ≡ false) e o)
            (subst (λ z. elem y (m.deps z) ≡ true) e d)
      | inr differs ↦ p.closed x y got (ground (arith, elem-cons x self a.seen)) o d
    ];
  }

  -- Seeing again what is seen changes nothing.
  pub Spreads-see :
      (open_syms : List ℕ) (self : ℕ) (a : Walk)
      → elem self a.seen ≡ true
      → Spreads open_syms a (see self a)
  unfolding see
  Spreads-see open_syms self a old =
      Spreads-same open_syms a (see self a) (λ g. refl)
        (λ x. ground (arith, elem-cons x self a.seen, λ (e : x ≡ self). ap (λ z. elem z a.seen) e))
        (λ x old. old)
