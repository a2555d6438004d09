-- ===== src/Symbols/Meaning.antt =====
-- What core/ipyflow/data_model/utils/update_protocol.py is about, read off the fields of a store: what
-- holds a symbol, what its members are, and what was computed from it.
use ipyflow.Base.{
  ℕ, ◌≡◌, refl, ap, Bool, true, false, none, some, List, [], ◌∷◌, ◌++◌, lookup, lookup_or, has,
  keys, elem, elem-nil, elem-append, elem-keys, not, ◌==◌, ◌&&◌, ◌||◌, Bool-cases, Option-cases,
  ◌⊎◌, inl, inr, arith,
}
use ipyflow.Timestamp.{uninitialized}
use ipyflow.Timestamp.Clock.{current}
use ipyflow.Symbols.{
  Python, Store, SymbolType, default, subscript, function, class, import_type, module_type,
  anonymous,
}
use ipyflow.Symbols.Spaces.{
  is_import_type, is_module_type, entries, all_symbols, containing_namespace, namespace, owners,
  aliases_of, symbols_in,
}
use ipyflow.Symbols.Facts.{IsTold, IsMarked}
use ipyflow.Symbols.Propagate.{holder_of, from_class, without, dependents, should_mark}

-- symbols of modules and imported ones
pub names_module : SymbolType → Bool
names_module = elim [
  | default ↦ false
  | subscript ↦ false
  | function ↦ false
  | class ↦ false
  | import_type ↦ false
  | module_type ↦ true
  | anonymous ↦ false
]

pub names_import : SymbolType → Bool
names_import = elim [
  | default ↦ false
  | subscript ↦ false
  | function ↦ false
  | class ↦ false
  | import_type ↦ true
  | module_type ↦ false
  | anonymous ↦ false
]

names_module_lem : (k : SymbolType) → is_module_type k ≡ names_module k
unfolding names_module
names_module_lem = elim [
  | default ↦ refl
  | subscript ↦ refl
  | function ↦ refl
  | class ↦ refl
  | import_type ↦ refl
  | module_type ↦ refl
  | anonymous ↦ refl
]

pub names_import_lem : (k : SymbolType) → is_import_type k ≡ names_import k
unfolding names_import
names_import_lem = elim [
  | default ↦ refl
  | subscript ↦ refl
  | function ↦ refl
  | class ↦ refl
  | import_type ↦ refl
  | module_type ↦ refl
  | anonymous ↦ refl
]

module _ (st : Store) where
  -- the scope that the symbol is in, which may be the namespace of an object
  abbrev pub scope_of : ℕ → ℕ
  scope_of x = (st.symbol x).containing_scope

  -- whether a namespace holds the symbol, where modules are held by none
  abbrev pub is_held : ℕ → Bool
  is_held x = not (names_module (st.symbol x).symbol_type) && (st.space (scope_of x)).is_namespace

  -- whether `y` is a symbol of the object that the namespace is for
  abbrev pub owns : ℕ → ℕ → Bool
  owns sp y = elem y (lookup_or [] (st.space sp).cached_obj_id st.aliases)

  -- whether `y` is in one of the tables of a scope; a plain scope has one, a namespace two
  abbrev pub is_entry : ℕ → ℕ → Bool
  is_entry sp y =
      elem y (entries (st.space sp).symbol_by_name)
      || ((st.space sp).is_namespace && elem y (entries (st.space sp).subscript_symbol_by_name))

  -- whether `y` is a member of the object of `x`, or, unless only its own count, of what that is a clone
  -- of
  abbrev pub is_member : Bool → ℕ → ℕ → Bool
  is_member own x y = elim (lookup (st.symbol x).obj_id st.namespaces) [
    | none ↦ false
    | some sp ↦ is_entry sp y || elem y (symbols_in st own sp)
  ]

  -- whether the object of `x` is a class, and that of `y` an instance of it
  abbrev pub is_instance : ℕ → ℕ → Bool
  is_instance x y = elim (lookup (st.symbol y).obj_id st.namespaces) [
    | none ↦ false
    | some sp ↦ elim (st.space sp).cloned_from [
      | none ↦ false
      | some origin ↦ (st.space origin).cached_obj_id == (st.symbol x).obj_id
    ]
  ]

  -- whether `y` was computed from `x`, as far as an update of `u` is concerned: an instance does not
  -- follow its class, unless the class is what was updated
  abbrev pub follows : ℕ → ℕ → ℕ → Bool
  follows u x y = has (lookup y (st.symbol x).children) && (u == x || not (is_instance x y))

  -- whether `x` must learn that it waits for `u`
  abbrev pub must_wait : ℕ → ℕ → Bool
  must_wait u x =
      not (elem x st.updated_symbols)
      && not (elem x st.this_stmt_updated_symbols)
      && not (st.symbol x).disable_warnings
      && not (u == x)

  abbrev pub is_imported : ℕ → Bool
  is_imported x = names_import (st.symbol x).symbol_type

  -- whether `y` is a symbol of the object that holds `x`, or where the update descends a member of
  -- that of `x`
  abbrev pub leads_to : Bool → ℕ → ℕ → Bool
  leads_to descend x y = (is_held x && owns (scope_of x) y) || (descend && is_member false x y)

  -- The symbol need not be updated, and the namespace that holds it was, and does not wait for it.
  abbrev pub IsSettled : Store → ℕ → Type 0
  IsSettled now x =
      ((now.symbol x).required_timestamp ≡ uninitialized)
      × ((is_held x ≡ false)
          ⊎ ((now.space (scope_of x)).max_descendent_timestamp ≡ current st.clock)
            × (elem x (now.space (scope_of x)).namespace_waiting_symbols ≡ false))

  -- Where the symbol is in the namespace of an object that is no module, that namespace waits for it,
  -- and the symbols of the object are seen.
  abbrev pub IsNotified : Python → List ℕ → Store → ℕ → Type 0
  IsNotified py seen now x =
      (((st.space (scope_of x)).is_namespace && not (py.is_module (st.space (scope_of x)).obj))
        ≡ false)
      ⊎ ((elem x (now.space (scope_of x)).namespace_waiting_symbols ≡ true)
          × ((r : ℕ) → (owns (scope_of x) r && not (elem r seen)) ≡ false))

  -- The symbol must be updated from now on and its members are seen, or a namespace of its object
  -- waits for a member; and those that hold it were notified.
  abbrev pub MustUpdate : Python → List ℕ → Store → ℕ → Type 0
  MustUpdate py seen now x =
      (((now.symbol x).required_timestamp ≡ current st.clock)
          × ((y : ℕ) → (is_member true x y && not (elem y seen)) ≡ false)
        ⊎ ((sp : ℕ) × (s : ℕ) × (owns sp x ≡ true)
            × (elem s (now.space sp).namespace_waiting_symbols ≡ true)))
      × IsNotified py seen now x

  pub must_wait_lem : (u x : ℕ) → should_mark st u x ≡ must_wait u x
  unfolding should_mark
  must_wait_lem u x = ground arith

  elem-without :
      (test : ℕ → Bool) (y : ℕ) (xs : List ℕ)
      → elem y (without test xs) ≡ (elem y xs && not (test y))
  unfolding without elem
  elem-without test y [] = refl
  elem-without test y (x ∷ xs) = ground (arith, elem-without test y xs, λ (e : y ≡ x). ap test e)

  from_class_lem : (x y : ℕ) → from_class st x y ≡ is_instance x y
  unfolding from_class namespace
  from_class_lem x y = elim (Option-cases (lookup (st.symbol y).obj_id st.namespaces)) [
    | inl e ↦ rw (from_class, is_instance, namespace, e) refl
    | inr (sp, e) ↦ elim (Option-cases (st.space sp).cloned_from) [
      | inl n ↦ rw (from_class, is_instance, namespace, e, n) refl
      | inr (origin, f) ↦ rw (from_class, is_instance, namespace, e, f) refl
    ]
  ]

  pub elem-dependents : (u x y : ℕ) → elem y (dependents st u x) ≡ follows u x y
  unfolding dependents
  elem-dependents u x y = ground (
    arith,
    elem-without (from_class st x) y (keys (st.symbol x).children),
    elem-keys y (st.symbol x).children,
    from_class_lem x y,
  )

  absorbs :
      (y : ℕ) (xs ys zs : List ℕ)
      → elem y (xs ++ (ys ++ zs)) ≡ (elem y xs || elem y ys || elem y (xs ++ (ys ++ zs)))
  absorbs y xs ys zs = ground (arith, elem-append y xs (ys ++ zs), elem-append y ys zs)

  entry_lem :
      (own : Bool) (sp y : ℕ)
      → elem y (symbols_in st own sp) ≡ (is_entry sp y || elem y (symbols_in st own sp))
  unfolding symbols_in all_symbols
  entry_lem own sp y = elim (Bool-cases (st.space sp).is_namespace) [
    | inl space ↦ rw space (absorbs y _ _ _)
    | inr scope ↦ rw scope (ground arith)
  ]

  pub elem-members :
      (own : Bool) (x y : ℕ)
      → elem y (elim (namespace st x) [ none ↦ [] | some sp ↦ symbols_in st own sp ])
        ≡ is_member own x y
  unfolding namespace
  elem-members own x y = elim (Option-cases (lookup (st.symbol x).obj_id st.namespaces)) [
    | inl e ↦ rw (is_member, e) (elem-nil y)
    | inr (sp, e) ↦ rw (is_member, e) (entry_lem own sp y)
  ]

  pub owners_lem : (sp y : ℕ) → elem y (owners st sp) ≡ owns sp y
  unfolding owners aliases_of
  owners_lem sp y = refl

  pub holder_of_held : (x : ℕ) → is_held x ≡ true → holder_of st x ≡ some (scope_of x)
  unfolding holder_of containing_namespace
  holder_of_held x h = ground (arith, names_module_lem (st.symbol x).symbol_type)

  pub holder_of_unheld : (x : ℕ) → is_held x ≡ false → holder_of st x ≡ none
  unfolding holder_of containing_namespace
  holder_of_unheld x h = ground (arith, names_module_lem (st.symbol x).symbol_type)

  IsTold-IsNotified :
      (py : Python) (u : ℕ) (seen : List ℕ) (now : Store) (x : ℕ)
      → IsTold st py u seen now x
      → IsNotified py seen now x
  unfolding containing_namespace owners aliases_of
  IsTold-IsNotified py u seen now x t = elim (Bool-cases (st.space (scope_of x)).is_namespace) [
    | inr plain ↦ inl (ground arith)
    | inl space ↦ elim (rw (IsTold, space) at t) [ inl m ↦ inl (ground arith) | inr k ↦ inr k ]
  ]

  pub IsMarked-MustUpdate :
      (py : Python) (u : ℕ) (seen : List ℕ) (now : Store) (x : ℕ)
      → IsMarked st py u seen now x
      → MustUpdate py seen now x
  unfolding owners aliases_of
  IsMarked-MustUpdate py u seen now x (inl (e, all), t) = (
    inl (e, λ y. ground (arith, all y, elem-members true x y)),
    IsTold-IsNotified py u seen now x t,
  )
  IsMarked-MustUpdate py u seen now x (inr h, t) = (inr h, IsTold-IsNotified py u seen now x t)
