-- ===== src/Slicing/Closure.antt =====
-- The backward closure of core/ipyflow/slicing/mixin.py: `_make_slice_helper` and
-- `make_multi_slice`. A recursive call has fuel: the number of objects that are not yet in the
-- closure bounds the depth of the recursion, and the number of an object that of its versions.
use ipyflow.Base.{
  ℕ, zero, suc, ℤ, Bool, false, Option, none, some, List, [], ◌∷◌, ◌++◌, keys, elem, add, not, ◌&&◌,
  if◌then◌else◌,
}
use ipyflow.Timestamp.{Timestamp, lt}
use ipyflow.Config.Contexts.{SlicingContext, MutableDataflowSettings, slicing_contexts}
use ipyflow.Slicing.EdgeSets.{Edges}
use ipyflow.Slicing.Graph.{Graph}

-- `key_error` is an identifier or a time that names no object, `no_previous` an attribute of `None`.
pub data Result {ℓ} (A : Type ℓ) : Type ℓ where
  ok : A → Result A
  key_error no_previous out_of_fuel : Result A

infixl 5 ◌>>=◌
abbrev pub ◌>>=◌ {ℓ κ} : {A : Type ℓ} {B : Type κ} → Result A → (A → Result B) → Result B
ok a >>= f = f a
key_error >>= f = key_error
no_previous >>= f = no_previous
out_of_fuel >>= f = out_of_fuel

abbrev or_key_error {ℓ} : {A : Type ℓ} → Option A → Result A
or_key_error none = key_error
or_key_error (some a) = ok a

abbrev or_no_previous {ℓ} : {A : Type ℓ} → Option A → Result A
or_no_previous none = no_previous
or_no_previous (some a) = ok a

-- What a slice is computed over: the objects, whose fields do not depend on the slicing context,
-- and the edges of each context.
pub record Sliceables : Type 0 where
  pub objects : Graph
  pub parents_in : SlicingContext → ℕ → Edges
  pub settings : MutableDataflowSettings

-- the keys of `raw_parents` in one enabled context after the other
unfoldable pub parent_ids_in : Sliceables → List SlicingContext → ℕ → List ℕ
unfolding keys
parent_ids_in s [] self = []
parent_ids_in s (c ∷ cs) self = keys (s.parents_in c self) ++ parent_ids_in s cs self

unfoldable pub parent_ids : Sliceables → ℕ → List ℕ
unfolding parent_ids_in slicing_contexts
parent_ids s self = parent_ids_in s (slicing_contexts s.settings) self

-- while parent.timestamp > self.timestamp: if override: break; parent = parent.prev
unfoldable pub step_back : ℕ → Graph → Timestamp → ℕ → Result ℕ
unfolding lt
step_back zero g ts parent = out_of_fuel
step_back (suc fuel) g ts parent =
    let earlier = or_no_previous (g.prev parent) >>= step_back fuel g ts in
    if lt ts (g.timestamp parent) && not (g.override parent) then earlier else ok parent

-- the version that a parent's identifier stands for, as `self` saw it
unfoldable pub resolve : Sliceables → ℕ → ℕ → Result ℕ
unfolding step_back
resolve s self pid = do
  parent ← or_key_error (s.objects.from_id pid)
  step_back (suc parent) s.objects (s.objects.timestamp self) parent

-- the loop over the parents; `visit` is the recursive call
unfoldable pub follow :
    Sliceables → (ℕ → List ℕ → Result (List ℕ)) → ℕ → List ℕ → List ℕ → Result (List ℕ)
unfolding resolve
follow s visit self [] closure = ok closure
follow s visit self (pid ∷ pids) closure = do
  parent ← resolve s self pid
  closure' ← visit parent closure
  follow s visit self pids closure'

-- `_make_slice_helper`
unfoldable pub make_slice_helper : Sliceables → ℕ → ℕ → List ℕ → Result (List ℕ)
unfolding follow parent_ids elem
make_slice_helper s zero self closure = if elem self closure then ok closure else out_of_fuel
make_slice_helper s (suc fuel) self closure =
    if elem self closure
    then ok closure
    else follow s (make_slice_helper s fuel) self (parent_ids s self) (self ∷ closure)

pub data Seed : Type 0 where
  point : Timestamp → Seed
  counter : ℤ → Seed
  object : ℕ → Seed

unfoldable pub slice_seed : Graph → Seed → Result ℕ
slice_seed g (point ts) = or_key_error (g.at_timestamp ts)
slice_seed g (counter n) = or_key_error (g.at_counter n)
slice_seed g (object r) = ok r

-- the loop of `make_multi_slice` over the seeds
unfoldable pub close_seeds : Sliceables → ℕ → Bool → List Seed → List ℕ → Result (List ℕ)
unfolding slice_seed make_slice_helper add
close_seeds s fuel seed_only [] closure = ok closure
close_seeds s fuel seed_only (seed ∷ seeds) closure = do
  r ← slice_seed s.objects seed
  closure' ← (if seed_only then ok (add r closure) else make_slice_helper s fuel r closure)
  close_seeds s fuel seed_only seeds closure'

-- sorted(closure, key=lambda dep: dep.timestamp)
unfoldable pub insert_by_timestamp : Graph → ℕ → List ℕ → List ℕ
unfolding lt
insert_by_timestamp g x [] = x ∷ []
insert_by_timestamp g x (y ∷ ys) =
    if lt (g.timestamp y) (g.timestamp x) then y ∷ insert_by_timestamp g x ys else x ∷ y ∷ ys

unfoldable pub sort_by_timestamp : Graph → List ℕ → List ℕ
unfolding insert_by_timestamp
sort_by_timestamp g [] = []
sort_by_timestamp g (x ∷ xs) = insert_by_timestamp g x (sort_by_timestamp g xs)

unfoldable pub make_multi_slice : Sliceables → ℕ → List Seed → Bool → Result (List ℕ)
unfolding close_seeds sort_by_timestamp
make_multi_slice s fuel seeds seed_only = do
  closure ← close_seeds s fuel seed_only seeds []
  ok (sort_by_timestamp s.objects closure)

unfoldable pub make_slice : Sliceables → ℕ → ℕ → Result (List ℕ)
unfolding make_multi_slice
make_slice s fuel self = make_multi_slice s fuel (object self ∷ []) false
