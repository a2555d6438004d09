-- ===== src/Timestamp/Order.antt =====
-- The order of timestamps (core/ipyflow/data_model/timestamp.py).
use ipyflow.Base.{◌≡◌, ◌↔◌, ap, true, false, not, ◌||◌, ◌&&◌, some, arith}
use ipyflow.Timestamp.{Timestamp, eq, lt}

-- Two timestamps are equal for `==` exactly when they are the same point.
pub eq_iff : (a b : Timestamp) → (eq a (some b) ≡ true) ↔ (a ≡ b)
unfolding eq
eq_iff a b = ground arith

pub lt_irrefl : (a : Timestamp) → lt a a ≡ false
unfolding lt
lt_irrefl a = ground arith

pub lt_trans : (a b c : Timestamp) → lt a b ≡ true → lt b c ≡ true → lt a c ≡ true
unfolding lt
lt_trans a b c h k = ground arith

pub lt_asymm : (a b : Timestamp) → lt a b ≡ true → lt b a ≡ false
unfolding lt
lt_asymm a b h = ground arith

pub lt_total : (a b : Timestamp) → lt a b ≡ false → lt b a ≡ false → a ≡ b
unfolding lt
lt_total a b h k = ground arith

-- `not (b < a)` is transitive too.
pub le_trans : (a b c : Timestamp) → lt b a ≡ false → lt c b ≡ false → lt c a ≡ false
unfolding lt
le_trans a b c h k = ground arith

-- `<` on timestamps is a strict total order: no point lies before itself, the order is transitive,
-- no two points lie before one another, and of two points one lies before the other unless they
-- are equal for `==`.
pub lt_strict_total :
    (a b c : Timestamp)
    → (lt a a ≡ false)
      × ((lt a b && lt b c && not (lt a c)) ≡ false)
      × ((lt a b && lt b a) ≡ false)
      × ((lt a b || lt b a) ≡ not (eq a (some b)))
lt_strict_total a b c = (
  lt_irrefl a,
  ground (arith, lt_trans a b c),
  ground (arith, lt_asymm a b),
  ground (
    arith,
    lt_total a b,
    eq_iff a b,
    lt_irrefl a,
    λ (e : a ≡ b). ap (lt a) e,
    λ (e : a ≡ b). ap (λ z. lt z a) e,
  ),
)
