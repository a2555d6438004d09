-- ===== src/Symbols/Named.antt =====
-- Well-formed stores of symbols (core/ipyflow/data_model/symbol.py), and recursions over them.
use ipyflow.Base.{ℕ, ◌<◌, ◌≡◌, Bool, true, false, [], elem}
use ipyflow.Symbols.{Store}
use ipyflow.Symbols.Spaces.{owners, symbols_in}
use ipyflow.Symbols.Propagate.{dependents}
use ipyflow.Symbols.Skeleton.{SameBones, owners_same, symbols_in_same, dependents_same}
use ipyflow.Symbols.Spread.{Marks}

-- The symbols that a store names are below a bound.
pub record IsNamed (st : Store) (count : ℕ) : Type 0 where
  pub children : (u x y : ℕ) → elem y (dependents st u x) ≡ true → y < count
  pub holders : (sp y : ℕ) → elem y (owners st sp) ≡ true → y < count
  pub members : (flag : Bool) (sp y : ℕ) → elem y (symbols_in st flag sp) ≡ true → y < count

pub SameBones-IsNamed :
    (a b : Store) (count : ℕ) → SameBones a b → IsNamed a count → IsNamed b count
SameBones-IsNamed a b count same named = record {
  children = λ u x y m. named.children u x y (rw (dependents_same a b same u x) at m);
  holders = λ sp y m. named.holders sp y (rw (owners_same a b same sp) at m);
  members = λ flag sp y m. named.members flag sp y (rw (symbols_in_same a b same flag sp) at m);
}

-- for a recursion of which only the end is of interest
abbrev pub no_marks : Marks
no_marks = record {
  facts = ℕ;
  is_kept = λ x seen st. Unit;
  widens = λ x s t more st k. k;
  mark_of = λ x. x;
  should = λ x. false;
  deps = λ x. [];
}
