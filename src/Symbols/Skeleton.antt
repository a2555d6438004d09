-- ===== src/Symbols/Skeleton.antt =====
-- What updates of symbols (core/ipyflow/data_model/utils/update_protocol.py and the method `refresh`
-- of core/ipyflow/data_model/symbol.py) leave alone: which symbols and scopes there are, what they
-- hold, and the tables of the flow.
use mathlib.Core.Path.{fun_ext}
use ipyflow.Base.{
  ℕ, zero, suc, ◌≡◌, refl, sym, ap, ◌∙◌, Bool, true, false, none, some, List, [], ◌++◌, Bool-cases,
  inl, inr, ==_iff, ◌==◌, if◌then◌else◌,
}
use ipyflow.Timestamp.{uninitialized}
use ipyflow.Cells.{Registry}
use ipyflow.Symbols.{Symbol, Space, Store, write_symbol, write_space}
use ipyflow.Symbols.Spaces.{
  namespace, containing_namespace, owners, symbols_in, all_symbols, entries, aliases_of,
}
use ipyflow.Symbols.Refresh.{Walk}
use ipyflow.Symbols.Propagate.{
  mark, add_waiting, dependents, note_uses, clear_required, tell_updated, from_class, holder_of,
}

-- a symbol without its times, marks and flags
abbrev pub bare_symbol : Symbol → Symbol
bare_symbol s = record s {
  own_timestamp = uninitialized;
  override_timestamp = none;
  required_timestamp = uninitialized;
  snapshot_timestamps = [];
  snapshot_timestamp_ubounds = [];
  updated_timestamps = [];
  fresher_ancestors = [];
  fresher_ancestor_timestamps = [];
  temp_disable_warnings = false;
}

abbrev pub bare_space : Space → Space
bare_space sp = record sp {
  max_descendent_timestamp = uninitialized;
  namespace_waiting_symbols = [];
}

abbrev pub skeleton : Registry → Store → Store
skeleton g st = record st {
  symbol = λ r. bare_symbol (st.symbol r);
  space = λ r. bare_space (st.space r);
  registry = g;
}

-- The two stores differ in times, marks, flags and cells only.
abbrev pub SameBones : Store → Store → Type 0
SameBones a b = (g : Registry) → skeleton g b ≡ skeleton g a

pub write_symbol-SameBones :
    (st : Store) (self : ℕ) (s : Symbol)
    → bare_symbol s ≡ bare_symbol (st.symbol self)
    → SameBones st (write_symbol st self s)
unfolding write_symbol
write_symbol-SameBones st self s same g =
    ap (λ f. record (skeleton g st) { symbol = f })
      (fun_ext (λ r. elim (Bool-cases (r == self)) [
        | inl e ↦ rw e (same ∙ sym (ap (λ z. bare_symbol (st.symbol z)) ((==_iff r self).0 e)))
        | inr n ↦ rw n refl
      ]))

pub write_space-SameBones :
    (st : Store) (self : ℕ) (sp : Space)
    → bare_space sp ≡ bare_space (st.space self)
    → SameBones st (write_space st self sp)
unfolding write_space
write_space-SameBones st self sp same g =
    ap (λ f. record (skeleton g st) { space = f })
      (fun_ext (λ r. elim (Bool-cases (r == self)) [
        | inl e ↦ rw e (same ∙ sym (ap (λ z. bare_space (st.space z)) ((==_iff r self).0 e)))
        | inr n ↦ rw n refl
      ]))

-- One level of `all_symbols`, where `rest` is what a clone's origin has.
entries_with : Bool → (ℕ → List ℕ) → Space → List ℕ
entries_with flag rest sc =
    if sc.is_namespace
    then entries sc.symbol_by_name
      ++ (entries sc.subscript_symbol_by_name ++ elim sc.cloned_from [
        | none ↦ []
        | some origin ↦ elim flag [ true ↦ [] | false ↦ rest origin ]
      ])
    else entries sc.symbol_by_name

-- The symbols of a scope depend on scopes only.
pub all_symbols_same :
    (a b : Store)
    → ((sp : ℕ) → bare_space (b.space sp) ≡ bare_space (a.space sp))
    → (fuel : ℕ) (flag : Bool) (sp : ℕ) → all_symbols fuel b flag sp ≡ all_symbols fuel a flag sp
unfolding all_symbols entries_with
all_symbols_same a b same zero flag sp = refl
all_symbols_same a b same (suc fuel) flag sp =
    ap (λ f. entries_with flag f (bare_space (b.space sp)))
      (fun_ext (λ origin. all_symbols_same a b same fuel false origin))
    ∙ ap (entries_with flag (all_symbols fuel a false)) (same sp)

module _ (a b : Store) (same : SameBones a b) where
  pub owners_same : (sp : ℕ) → owners b sp ≡ owners a sp
  unfolding owners aliases_of
  owners_same sp = ap (λ st. owners st sp) (same a.registry)

  pub dependents_same : (u x : ℕ) → dependents b u x ≡ dependents a u x
  unfolding dependents from_class namespace
  dependents_same u x = ap (λ st. dependents st u x) (same a.registry)

  pub namespace_same : (x : ℕ) → namespace b x ≡ namespace a x
  unfolding namespace
  namespace_same x = ap (λ st. namespace st x) (same a.registry)

  pub containing_namespace_same : (x : ℕ) → containing_namespace b x ≡ containing_namespace a x
  unfolding containing_namespace
  containing_namespace_same x = ap (λ st. containing_namespace st x) (same a.registry)

  pub holder_of_same : (x : ℕ) → holder_of b x ≡ holder_of a x
  unfolding holder_of containing_namespace
  holder_of_same x = ap (λ st. holder_of st x) (same a.registry)

  pub symbols_in_same : (flag : Bool) (sp : ℕ) → symbols_in b flag sp ≡ symbols_in a flag sp
  unfolding symbols_in
  symbols_in_same flag sp =
      all_symbols_same a b (λ r. ap (λ st. st.space r) (same a.registry)) (suc sp) flag sp

pub note_uses-SameBones : (x : ℕ) (st : Store) → SameBones st (note_uses x st)
unfolding note_uses
note_uses-SameBones x st g = refl

pub clear_required-SameBones : (x : ℕ) (st : Store) → SameBones st (clear_required x st)
unfolding clear_required
clear_required-SameBones x st = write_symbol-SameBones st x _ refl

pub tell_updated-SameBones : (x sp : ℕ) (st : Store) → SameBones st (tell_updated x sp st)
unfolding tell_updated
tell_updated-SameBones x sp st = write_space-SameBones st sp _ refl

pub mark-SameBones : (st : Store) (u x : ℕ) (w : Walk) → SameBones w.store (mark st u x w).store
unfolding mark
mark-SameBones st u x w = write_symbol-SameBones w.store x _ refl

pub add_waiting-SameBones : (x sp : ℕ) (w : Walk) → SameBones w.store (add_waiting x sp w).store
unfolding add_waiting
add_waiting-SameBones x sp w = write_space-SameBones w.store sp _ refl

pub SameBones-trans : (a b c : Store) → SameBones a b → SameBones b c → SameBones a c
SameBones-trans a b c p q g = q g ∙ p g
