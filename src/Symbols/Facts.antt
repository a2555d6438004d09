-- ===== src/Symbols/Facts.antt =====
-- What the methods of core/ipyflow/data_model/utils/update_protocol.py that pass waiting on do not
-- undo: which symbols must be updated, and what holds them.
use ipyflow.Base.{
  ℕ, ◌≡◌, refl, ap, ◌⊎◌, inl, inr, true, false, none, some, List, [], not, ◌&&◌, elem, elem-add,
  Option-cases, arith,
}
use ipyflow.Timestamp.Clock.{current}
use ipyflow.Symbols.{Python, Store, write_symbol, write_space}
use ipyflow.Symbols.Spaces.{owners, containing_namespace, namespace, symbols_in}
use ipyflow.Symbols.Refresh.{Walk}
use ipyflow.Symbols.Propagate.{dependents, should_mark, mark, add_waiting}
use ipyflow.Symbols.Skeleton.{mark-SameBones, add_waiting-SameBones}
use ipyflow.Symbols.Spread.{Marks, Spreads, Spreads-same}

-- What passing on does not undo: a symbol is marked, it must be updated from now on, it holds a member
-- that waits, those that hold it were told, and a namespace waits for a symbol.
pub data Fact : Type 0 where
  marked late held told : ℕ → Fact
  waiting : ℕ → ℕ → Fact

module _ (st : Store) (py : Python) (updated : ℕ) where
  -- a namespace of the object of the symbol has a member that waits
  abbrev pub IsHeld : Store → ℕ → Type 0
  IsHeld now x =
      (sp : ℕ) × (s : ℕ) × (elem x (owners st sp) ≡ true)
      × (elem s (now.space sp).namespace_waiting_symbols ≡ true)

  -- The namespace that the symbol is in waits for it, and the symbols of its object are seen, unless
  -- it is that of a module.
  abbrev pub IsTold : List ℕ → Store → ℕ → Type 0
  IsTold seen now x = elim (containing_namespace st x) [
    | none ↦ Unit
    | some sp ↦
        (py.is_module (st.space sp).obj ≡ true)
        ⊎ ((elem x (now.space sp).namespace_waiting_symbols ≡ true)
            × ((r : ℕ) → (elem r (owners st sp) && not (elem r seen)) ≡ false))
  ]

  abbrev pub members : ℕ → List ℕ
  members x = elim (namespace st x) [ none ↦ [] | some sp ↦ symbols_in st true sp ]

  -- The symbol must be updated from now on and its members are seen, or it holds a member that must;
  -- and those that hold it were told.
  abbrev pub IsMarked : List ℕ → Store → ℕ → Type 0
  IsMarked seen now x =
      (((now.symbol x).required_timestamp ≡ current st.clock)
          × ((y : ℕ) → (elem y (members x) && not (elem y seen)) ≡ false)
        ⊎ IsHeld now x)
      × IsTold seen now x

  IsTold-widens :
      (seen wider : List ℕ) (now : Store) (x : ℕ)
      → ((r : ℕ) → elem r seen ≡ true → elem r wider ≡ true)
      → IsTold seen now x
      → IsTold wider now x
  IsTold-widens seen wider now x more t = elim (Option-cases (containing_namespace st x)) [
    | inl e ↦ rw (IsTold, e) tt
    | inr (sp, e) ↦
        rw (IsTold, e)
          (elim (rw (IsTold, e) at t) [
            | inl m ↦ inl m
            | inr (k, all) ↦ inr (k, λ r. ground (arith, all r, more r))
          ])
  ]

  abbrev IsFact : Fact → List ℕ → Store → Type 0
  IsFact (marked x) seen now = IsMarked seen now x
  IsFact (late x) seen now = (now.symbol x).required_timestamp ≡ current st.clock
  IsFact (held x) seen now = IsHeld now x
  IsFact (waiting sp s) seen now = elem s (now.space sp).namespace_waiting_symbols ≡ true
  IsFact (told x) seen now = IsTold seen now x

  pub IsFact-widens :
      (f : Fact) (seen wider : List ℕ)
      → ((r : ℕ) → elem r seen ≡ true → elem r wider ≡ true)
      → (now : Store) → IsFact f seen now
      → IsFact f wider now
  IsFact-widens (late x) seen wider more now e = e
  IsFact-widens (waiting sp s) seen wider more now m = m
  IsFact-widens (marked x) seen wider more now (inl (e, all), t) =
      (inl (e, λ y. ground (arith, all y, more y)), IsTold-widens seen wider now x more t)
  IsFact-widens (marked x) seen wider more now (inr h, t) =
      (inr h, IsTold-widens seen wider now x more t)
  IsFact-widens (held x) seen wider more now h = h
  IsFact-widens (told x) seen wider more now t = IsTold-widens seen wider now x more t

  abbrev pub waits : Marks
  waits = record {
    facts = Fact;
    is_kept = IsFact;
    widens = IsFact-widens;
    mark_of = marked;
    should = should_mark st updated;
    deps = dependents st updated;
  }

  IsTold-keep :
      (seen : List ℕ) (now then' : Store)
      → ((t s : ℕ)
          → elem s (now.space t).namespace_waiting_symbols ≡ true
          → elem s (then'.space t).namespace_waiting_symbols ≡ true)
      → (x : ℕ) → IsTold seen now x
      → IsTold seen then' x
  IsTold-keep seen now then' spaces x t = elim (Option-cases (containing_namespace st x)) [
    | inl e ↦ rw (IsTold, e) tt
    | inr (sp, e) ↦
        rw (IsTold, e)
          (elim (rw (IsTold, e) at t) [ inl m ↦ inl m | inr (k, all) ↦ inr (spaces sp x k, all) ])
  ]

  -- What keeps all waiting members and all times that are the current one keeps the facts.
  IsFact-keep :
      (seen : List ℕ) (now then' : Store)
      → ((t s : ℕ)
          → elem s (now.space t).namespace_waiting_symbols ≡ true
          → elem s (then'.space t).namespace_waiting_symbols ≡ true)
      → ((x : ℕ)
          → (now.symbol x).required_timestamp ≡ current st.clock
          → (then'.symbol x).required_timestamp ≡ current st.clock)
      → (f : Fact) → IsFact f seen now
      → IsFact f seen then'
  IsFact-keep seen now then' spaces times (told x) t = IsTold-keep seen now then' spaces x t
  IsFact-keep seen now then' spaces times (late x) e = times x e
  IsFact-keep seen now then' spaces times (waiting sp s) m = spaces sp s m
  IsFact-keep seen now then' spaces times (held x) (sp, s, owns, m) = (sp, s, owns, spaces sp s m)
  IsFact-keep seen now then' spaces times (marked x) (inl (e, all), t) =
      (inl (times x e, all), IsTold-keep seen now then' spaces x t)
  IsFact-keep seen now then' spaces times (marked x) (inr (sp, s, owns, m), t) =
      (inr (sp, s, owns, spaces sp s m), IsTold-keep seen now then' spaces x t)

  pub Spreads-mark : (self : ℕ) (w : Walk) → Spreads waits [] w (mark st updated self w)
  unfolding mark write_symbol
  Spreads-mark self w =
      Spreads-same waits [] w (mark st updated self w) (mark-SameBones st updated self w)
        (λ x. refl)
        (IsFact-keep w.seen w.store (mark st updated self w).store (λ t s m. m)
          (λ x e. ground (arith, e)))

  pub mark-required :
      (self : ℕ) (w : Walk)
      → ((mark st updated self w).store.symbol self).required_timestamp ≡ current st.clock
  unfolding mark write_symbol
  mark-required self w = ground arith

  add_waiting-elem :
      (self sp t s : ℕ) (w : Walk)
      → elem s (w.store.space t).namespace_waiting_symbols ≡ true
      → elem s ((add_waiting self sp w).store.space t).namespace_waiting_symbols ≡ true
  unfolding add_waiting write_space
  add_waiting-elem self sp t s w m = ground (
    arith,
    elem-add s self (w.store.space sp).namespace_waiting_symbols,
    λ (e : t ≡ sp). ap (λ z. elem s (w.store.space z).namespace_waiting_symbols) e,
  )

  pub Spreads-add_waiting : (self sp : ℕ) (w : Walk) → Spreads waits [] w (add_waiting self sp w)
  unfolding add_waiting write_space
  Spreads-add_waiting self sp w =
      Spreads-same waits [] w (add_waiting self sp w) (add_waiting-SameBones self sp w) (λ x. refl)
        (IsFact-keep w.seen w.store (add_waiting self sp w).store
          (λ t s. add_waiting-elem self sp t s w) (λ x e. e))

  pub add_waiting-waits :
      (self sp : ℕ) (w : Walk)
      → elem self ((add_waiting self sp w).store.space sp).namespace_waiting_symbols ≡ true
  unfolding add_waiting write_space
  add_waiting-waits self sp w =
      ground (arith, elem-add self self (w.store.space sp).namespace_waiting_symbols)
