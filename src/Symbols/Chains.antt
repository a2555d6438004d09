-- ===== src/Symbols/Chains.antt =====
-- Chains of names (`gen_symbols_for_attrsub_chain` and its callers of
-- core/ipyflow/data_model/scope.py; `Atom` of core/ipyflow/analysis/symbol_ref.py).
use ipyflow.Base.{ℕ, suc, Bool, true, false, Option, none, some, List, [], ◌∷◌}
use ipyflow.Cells.Lookup.{◌>>=◌}
use ipyflow.Symbols.{Name, Python, Store}
use ipyflow.Symbols.Spaces.{no_subscript, namespace, lookup_symbol_by_name, lookup_this_indentation}

pub record Atom : Type 0 where
  pub value : Name
  pub is_callpoint : Bool
  pub is_subscript : Bool

-- a symbol of the chain, with the atom that names it and the next one
pub record Link : Type 0 where
  pub symbol : ℕ
  pub atom : Atom
  pub next_atom : Option Atom

abbrev pub first_of : List Atom → Option Atom
first_of [] = none
first_of (a ∷ _) = some a

-- the symbols along a chain, up to the first call or name that is not found
unfoldable pub gen_symbols_for_attrsub_chain : Python → Store → ℕ → List Atom → List Link
unfolding lookup_symbol_by_name namespace
gen_symbols_for_attrsub_chain py st scope [] = []
gen_symbols_for_attrsub_chain py st scope (a ∷ rest) =
    elim (lookup_symbol_by_name (suc scope) py st scope a.value) [
      | none ↦ []
      | some r ↦ record { symbol = r; atom = a; next_atom = first_of rest } ∷ elim a.is_callpoint [
        | true ↦ []
        | false ↦ elim (namespace st r) [
          | none ↦ []
          | some ns ↦ gen_symbols_for_attrsub_chain py st ns rest
        ]
      ]
    ]

-- what a loop that overwrites its variable leaves in it
unfoldable pub last_or {ℓ} : {A : Type ℓ} → Option A → List A → Option A
last_or o [] = o
last_or o (x ∷ xs) = last_or (some x) xs

unfoldable pub get_most_specific_symbol_for_attrsub_chain :
    Python → Store → ℕ → List Atom → Option Link
unfolding last_or gen_symbols_for_attrsub_chain
get_most_specific_symbol_for_attrsub_chain py st scope chain =
    last_or none (gen_symbols_for_attrsub_chain py st scope chain)

abbrev pub unless_more : Option Link → Option ℕ
unless_more none = none
unless_more (some l) = elim l.next_atom [ none ↦ some l.symbol | some _ ↦ none ]

unfoldable pub try_fully_resolve_attrsub_chain : Python → Store → ℕ → List Atom → Option ℕ
unfolding last_or gen_symbols_for_attrsub_chain
try_fully_resolve_attrsub_chain py st scope chain =
    unless_more (last_or none (gen_symbols_for_attrsub_chain py st scope chain))

-- lookup_symbol_by_qualified_name, for the parts of the name
unfoldable pub lookup_symbol_by_qualified_name : Python → Store → ℕ → List Name → Option ℕ
unfolding lookup_this_indentation namespace
lookup_symbol_by_qualified_name py st scope [] = none
lookup_symbol_by_qualified_name py st scope (part ∷ []) =
    lookup_this_indentation (suc scope) py st scope no_subscript false part
lookup_symbol_by_qualified_name py st scope (part ∷ next ∷ parts) =
    lookup_this_indentation (suc scope) py st scope no_subscript false part >>= λ r.
    namespace st r >>= λ ns. lookup_symbol_by_qualified_name py st ns (next ∷ parts)
