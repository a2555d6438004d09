-- ===== src/Symbols/Spaces.antt =====
-- Lookups in scopes and namespaces (core/ipyflow/data_model/scope.py and namespace.py). A scope is
-- younger than its parent and than the namespace that it was cloned from, so the number of a scope is
-- fuel for a walk along them.
use ipyflow.Base.{
  ℕ, zero, suc, Bool, true, false, Option, none, some, List, [], ◌∷◌, ◌++◌, pos, negsuc, ◌+ℤ◌,
  lookup, lookup_or, ◌==◌, ◌&&◌, ◌||◌, not, has, if◌then◌else◌,
}
use ipyflow.Cells.Lookup.{◌>>=◌}
use ipyflow.Symbols.{
  Name, text, index, name_eq, SymbolType, subscript, class, import_type, module_type, anonymous,
  Table, Space, Python, Store, write_symbol, write_space,
}

-- d.get(name)
unfoldable pub find : Name → Table → Option ℕ
unfolding name_eq
find name [] = none
find name ((n, r) ∷ table) = if name_eq name n then some r else find name table

-- d[name] = sym
unfoldable pub put_in : Name → ℕ → Table → Table
unfolding name_eq
put_in name r [] = (name, r) ∷ []
put_in name r ((n, q) ∷ table) =
    if name_eq name n then (name, r) ∷ table else (n, q) ∷ put_in name r table

-- d.pop(name, None)
unfoldable pub pop_from : Name → Table → Table
unfolding name_eq
pop_from name [] = []
pop_from name ((n, q) ∷ table) =
    let rest = pop_from name table in if name_eq name n then rest else (n, q) ∷ rest

unfoldable pub entries : Table → List ℕ
entries [] = []
entries ((n, r) ∷ table) = r ∷ entries table

abbrev pub is_subscript_type : SymbolType → Bool
is_subscript_type subscript = true
is_subscript_type _ = false

abbrev pub is_import_type : SymbolType → Bool
is_import_type import_type = true
is_import_type _ = false

abbrev pub is_module_type : SymbolType → Bool
is_module_type module_type = true
is_module_type _ = false

abbrev pub is_class_type : SymbolType → Bool
is_class_type class = true
is_class_type _ = false

abbrev pub is_anonymous_type : SymbolType → Bool
is_anonymous_type anonymous = true
is_anonymous_type _ = false

-- Scope.is_global
unfoldable pub is_global : Space → Bool
is_global sp = not (has (sp.parent_scope))

-- Namespace._lookup_subscript: an index below zero counts from the end.
abbrev from_end : Option ℕ → Name → Table → Option ℕ
from_end (some len) (index (negsuc n)) table = find (index (pos len +ℤ negsuc n)) table
from_end _ _ table = none

unfoldable pub lookup_subscript : Python → Space → Name → Option ℕ
unfolding find
lookup_subscript py sp name = elim (find name sp.subscript_symbol_by_name) [
  | some r ↦ some r
  | none ↦ from_end (py.sequence_length sp.obj) name sp.subscript_symbol_by_name
]

-- what the flag `is_subscript` of a lookup says: nothing, that it is one, or that it is none
pub data Subscript : Type 0 where
  either yes_subscript no_subscript : Subscript

abbrev or_else : Option ℕ → Option ℕ → Option ℕ
or_else (some r) o = some r
or_else none o = o

-- the tables of the namespace itself
unfoldable pub lookup_own : Python → Space → Subscript → Name → Option ℕ
unfolding find lookup_subscript
lookup_own py sp either name = or_else (find name sp.symbol_by_name) (lookup_subscript py sp name)
lookup_own py sp yes_subscript name = lookup_subscript py sp name
lookup_own py sp no_subscript name = find name sp.symbol_by_name

abbrev may_be_cloned : Subscript → Name → Bool
may_be_cloned yes_subscript _ = false
may_be_cloned _ (text _) = true
may_be_cloned _ _ = false

-- lookup_symbol_by_name_this_indentation, of a namespace or of a plain scope. Where the namespace has
-- no such name, nor its object such an attribute, the one that it was cloned from is asked.
unfoldable pub lookup_this_indentation : ℕ → Python → Store → ℕ → Subscript → Bool → Name → Option ℕ
unfolding lookup_own find
lookup_this_indentation zero py st self flag skip_cloned name =
    let sp = st.space self in
    if sp.is_namespace then lookup_own py sp flag name else find name sp.symbol_by_name
lookup_this_indentation (suc fuel) py st self flag skip_cloned name =
    let sp = st.space self in
    if sp.is_namespace
    then elim (lookup_own py sp flag name) [
      | some r ↦ some r
      | none ↦
          if skip_cloned || not (may_be_cloned flag name) || py.has_attribute sp.obj name
          then none
          else sp.cloned_from >>= λ origin.
              lookup_this_indentation fuel py st origin flag false name
    ]
    else find name sp.symbol_by_name

-- Scope.non_namespace_parent_scope: the nearest enclosing scope that is no namespace
unfoldable pub non_namespace_parent_scope : ℕ → Store → ℕ → Option ℕ
non_namespace_parent_scope zero st self = none
non_namespace_parent_scope (suc fuel) st self = (st.space self).parent_scope >>= λ parent.
    elim (st.space parent).is_namespace [
      | true ↦ non_namespace_parent_scope fuel st parent
      | false ↦ some parent
    ]

-- lookup_symbol_by_name: a namespace looks only at itself, a plain scope also at those around it.
unfoldable pub lookup_symbol_by_name : ℕ → Python → Store → ℕ → Name → Option ℕ
unfolding lookup_this_indentation non_namespace_parent_scope
lookup_symbol_by_name zero py st self name = none
lookup_symbol_by_name (suc fuel) py st self name =
    let here = lookup_this_indentation (suc self) py st self either false name in
    if (st.space self).is_namespace then here else elim here [
      | some r ↦ some r
      | none ↦ non_namespace_parent_scope (suc self) st self >>= λ parent.
          lookup_symbol_by_name fuel py st parent name
    ]

-- all_symbols_this_indentation, with both tables; `exclude_class` leaves out what a clone is from.
unfoldable pub all_symbols : ℕ → Store → Bool → ℕ → List ℕ
unfolding entries
all_symbols zero st exclude_class self = []
all_symbols (suc fuel) st exclude_class self =
    let sp = st.space self in
    if sp.is_namespace
    then entries sp.symbol_by_name
      ++ (entries sp.subscript_symbol_by_name ++ elim sp.cloned_from [
        | none ↦ []
        | some origin ↦ elim exclude_class [ true ↦ [] | false ↦ all_symbols fuel st false origin ]
      ])
    else entries sp.symbol_by_name

abbrev pub is_text : Name → Bool
is_text (text _) = true
is_text _ = false

-- Scope.put and Namespace.put; a namespace raises a `TypeError` for a name that is neither a text nor
-- a subscript's.
unfoldable pub put : Store → ℕ → Name → ℕ → Option Store
unfolding put_in write_symbol write_space
put st self name r =
    let sp = st.space self in
    let s = st.symbol r in
    let in_subscripts = sp.is_namespace && is_subscript_type s.symbol_type in
    let placed =
      if in_subscripts
      then record sp { subscript_symbol_by_name = put_in name r sp.subscript_symbol_by_name }
      else record sp { symbol_by_name = put_in name r sp.symbol_by_name } in
    if sp.is_namespace && not in_subscripts && not (is_text name)
    then none
    else some (write_symbol (write_space st self placed) r (record s { containing_scope = self }))

-- Scope.is_globally_accessible
unfoldable pub is_globally_accessible : ℕ → Store → ℕ → Bool
unfolding is_global has
is_globally_accessible zero st self = false
is_globally_accessible (suc fuel) st self =
    let sp = st.space self in
    elim sp.parent_scope [
      | none ↦ true
      | some parent ↦
          if sp.is_namespace
          then elim (parent == self) [ true ↦ true | false ↦ is_globally_accessible fuel st parent ]
          else false
    ]

-- Scope.full_path
unfoldable pub full_path : ℕ → Store → ℕ → List ℕ
full_path zero st self = []
full_path (suc fuel) st self =
    let sp = st.space self in
    elim sp.parent_scope [
      | none ↦ sp.scope_name ∷ []
      | some parent ↦ full_path fuel st parent ++ sp.scope_name ∷ []
    ]

-- Namespace.is_anonymous
unfoldable pub is_anonymous_space : ℕ → Python → Store → ℕ → Bool
is_anonymous_space zero py st self = false
is_anonymous_space (suc fuel) py st self =
    let sp = st.space self in
    if sp.scope_name == py.anonymous_name then true else elim sp.parent_scope [
      | none ↦ false
      | some parent ↦ elim (st.space parent).is_namespace [
        | true ↦ is_anonymous_space fuel py st parent
        | false ↦ false
      ]
    ]

-- Symbol.containing_namespace, Symbol.namespace and Symbol.aliases
unfoldable pub containing_namespace : Store → ℕ → Option ℕ
containing_namespace st self =
    let sp = (st.symbol self).containing_scope in
    if (st.space sp).is_namespace then some sp else none

unfoldable pub namespace : Store → ℕ → Option ℕ
unfolding lookup
namespace st self = lookup (st.symbol self).obj_id st.namespaces

unfoldable pub aliases_of : Store → ℕ → List ℕ
unfolding lookup_or
aliases_of st obj_id = lookup_or [] obj_id st.aliases

-- the symbols of the object that a namespace is for
unfoldable pub owners : Store → ℕ → List ℕ
unfolding aliases_of
owners st sp = aliases_of st (st.space sp).cached_obj_id

unfoldable pub symbols_in : Store → Bool → ℕ → List ℕ
unfolding all_symbols
symbols_in st exclude_class sp = all_symbols (suc sp) st exclude_class sp
