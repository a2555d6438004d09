-- ===== src/Symbols/Resolved.antt =====
-- What `try_fully_resolve_attrsub_chain` (core/ipyflow/data_model/scope.py) finds.
use ipyflow.Base.{
  ℕ, suc, ◌≡◌, refl, sym, ◌∙◌, ◌↔◌, false, none, some, List, [], ◌∷◌, inl, inr, Bool-cases,
  Option-cases, if◌then◌else◌, arith,
}
use ipyflow.Symbols.{Python, Store}
use ipyflow.Symbols.Spaces.{namespace, lookup_symbol_by_name}
use ipyflow.Symbols.Chains.{
  Atom, Link, last_or, unless_more, gen_symbols_for_attrsub_chain, try_fully_resolve_attrsub_chain,
}

-- What a chain means: each name is found in the scope before, and all but the last name an object with a
-- namespace, and no call.
pub data Resolves (py : Python) (st : Store) : ℕ → List Atom → ℕ → Type 0 where
  last :
      {scope r : ℕ} {a : Atom}
      → lookup_symbol_by_name (suc scope) py st scope a.value ≡ some r
      → Resolves py st scope (a ∷ []) r
  member :
      {scope q ns r : ℕ} {a b : Atom} {rest : List Atom}
      → lookup_symbol_by_name (suc scope) py st scope a.value ≡ some q
      → a.is_callpoint ≡ false
      → namespace st q ≡ some ns
      → Resolves py st ns (b ∷ rest) r
      → Resolves py st scope (a ∷ b ∷ rest) r

-- What the loop finds before the last name does not matter; the value before a loop over something does not matter
more_lem :
    (l : Link) (xs : List Link) (b : Atom)
    → l.next_atom ≡ some b
    → unless_more (last_or (some l) xs) ≡ unless_more (last_or none xs)
unfolding last_or
more_lem l [] b e = rw e refl
more_lem l (x ∷ xs) b e = refl

-- how a chain of two names or more is resolved
try_member :
    (py : Python) (st : Store) (scope q : ℕ) (a b : Atom) (rest : List Atom)
    → lookup_symbol_by_name (suc scope) py st scope a.value ≡ some q
    → try_fully_resolve_attrsub_chain py st scope (a ∷ b ∷ rest) ≡ (
        if a.is_callpoint then none else elim (namespace st q) [
          | none ↦ none
          | some ns ↦ try_fully_resolve_attrsub_chain py st ns (b ∷ rest)
        ])
unfolding try_fully_resolve_attrsub_chain
try_member py st scope q a b rest e = elim (Bool-cases a.is_callpoint) [
  | inl call ↦ rw (gen_symbols_for_attrsub_chain, e, call) refl
  | inr plain ↦ elim (Option-cases (namespace st q)) [
    | inl n ↦ rw (gen_symbols_for_attrsub_chain, e, plain, n) refl
    | inr (ns, n) ↦
        rw (gen_symbols_for_attrsub_chain, e, plain, n)
          (more_lem
            (record {
              symbol = q;
              atom = record {
                value = a.value;
                is_callpoint = false;
                is_subscript = a.is_subscript;
              };
              next_atom = some b;
            })
            (gen_symbols_for_attrsub_chain py st ns (b ∷ rest)) b refl)
  ]
]

try_missing :
    (py : Python) (st : Store) (scope : ℕ) (a : Atom) (rest : List Atom)
    → lookup_symbol_by_name (suc scope) py st scope a.value ≡ none
    → try_fully_resolve_attrsub_chain py st scope (a ∷ rest) ≡ none
unfolding try_fully_resolve_attrsub_chain last_or
try_missing py st scope a rest e = rw (gen_symbols_for_attrsub_chain, e) refl

try_last :
    (py : Python) (st : Store) (scope q : ℕ) (a : Atom)
    → lookup_symbol_by_name (suc scope) py st scope a.value ≡ some q
    → try_fully_resolve_attrsub_chain py st scope (a ∷ []) ≡ some q
unfolding try_fully_resolve_attrsub_chain last_or
try_last py st scope q a e = elim (Bool-cases a.is_callpoint) [
  | inl call ↦ rw (gen_symbols_for_attrsub_chain, e, call) refl
  | inr plain ↦ elim (Option-cases (namespace st q)) [
    | inl n ↦ rw (gen_symbols_for_attrsub_chain, e, plain, n) refl
    | inr (ns, n) ↦ rw (gen_symbols_for_attrsub_chain, e, plain, n) refl
  ]
]

resolve-Resolves :
    (py : Python) (st : Store) (chain : List Atom) (scope r : ℕ)
    → try_fully_resolve_attrsub_chain py st scope chain ≡ some r
    → Resolves py st scope chain r
unfolding try_fully_resolve_attrsub_chain last_or gen_symbols_for_attrsub_chain
resolve-Resolves py st [] scope r h = absurd (ground (arith, h))
resolve-Resolves py st (a ∷ []) scope r h =
    elim (Option-cases (lookup_symbol_by_name (suc scope) py st scope a.value)) [
      | inl n ↦ absurd (ground (arith, h, try_missing py st scope a [] n))
      | inr (q, e) ↦ last (e ∙ sym (try_last py st scope q a e) ∙ h)
    ]
resolve-Resolves py st (a ∷ b ∷ rest) scope r h =
    elim (Option-cases (lookup_symbol_by_name (suc scope) py st scope a.value)) [
      | inl n ↦ absurd (ground (arith, h, try_missing py st scope a (b ∷ rest) n))
      | inr (q, e) ↦
          let step = sym (try_member py st scope q a b rest e) ∙ h in
          elim (Bool-cases a.is_callpoint) [
            | inl call ↦ absurd (ground (arith, rw call at step))
            | inr plain ↦ elim (Option-cases (namespace st q)) [
              | inl n ↦ absurd (ground (arith, rw (plain, n) at step))
              | inr (ns, n) ↦
                  member e plain n (resolve-Resolves py st (b ∷ rest) ns r (rw (plain, n) at step))
            ]
          ]
    ]

Resolves-resolve :
    (py : Python) (st : Store) (chain : List Atom) (scope r : ℕ)
    → Resolves py st scope chain r
    → try_fully_resolve_attrsub_chain py st scope chain ≡ some r
Resolves-resolve py st [] scope r found = elim found [ ]
Resolves-resolve py st (a ∷ []) scope r (last e) = try_last py st scope r a e
Resolves-resolve py st (a ∷ b ∷ rest) scope r (member {q = q} {ns = ns} e plain n more) =
    try_member py st scope q a b rest e
    ∙ rw (plain, n) (Resolves-resolve py st (b ∷ rest) ns r more)

-- A chain of names resolves fully to a symbol exactly where each name is found in the scope before it,
-- and each but the last one is no call and names an object with a namespace, in which the next is found.
pub try_fully_resolve_attrsub_chain_lem :
    (py : Python) (st : Store) (scope : ℕ) (chain : List Atom) (r : ℕ)
    → (try_fully_resolve_attrsub_chain py st scope chain ≡ some r) ↔ Resolves py st scope chain r
try_fully_resolve_attrsub_chain_lem py st scope chain r =
    (resolve-Resolves py st chain scope r, Resolves-resolve py st chain scope r)
