-- ===== src/Base/Sets.antt =====
-- Python sets of objects or identifiers. An element is compared only for identity, so a number
-- stands for it; the order of a list that stands for a set is the order of iteration.
use Prim.Native.Nat.{ℕ, suc, ◌≤◌, ◌<◌}
use mathlib.Core.Path.{◌≡◌, refl, ap}
use mathlib.Core.Bool.{Bool, true, false, not, ◌&&◌, ◌||◌}
use mathlib.Core.List.{List, [], ◌∷◌, ◌++◌}
use native.Mathlib.Omega.{arith}
use ipyflow.Base.Tests.{◌==◌, if◌then◌else◌}

abbrev pub length {ℓ} : {A : Type ℓ} → List A → ℕ
length [] = 0
length (_ ∷ xs) = suc (length xs)

-- x in xs
unfoldable pub elem : ℕ → List ℕ → Bool
elem x [] = false
elem x (y ∷ ys) = x == y || elem x ys

-- xs.add(x)
unfoldable pub add : ℕ → List ℕ → List ℕ
unfolding elem
add x xs = if elem x xs then xs else x ∷ xs

-- the elements that satisfy a test
unfoldable pub keep : (ℕ → Bool) → List ℕ → List ℕ
keep p [] = []
keep p (x ∷ xs) = let rest = keep p xs in if p x then x ∷ rest else rest

-- a | b
unfoldable pub union : List ℕ → List ℕ → List ℕ
unfolding add
union [] ys = ys
union (x ∷ xs) ys = add x (union xs ys)

-- a & b, a - b and s - {x}
unfoldable pub inter : List ℕ → List ℕ → List ℕ
unfolding keep elem
inter xs ys = keep (λ x. elem x ys) xs

unfoldable pub diff : List ℕ → List ℕ → List ℕ
unfolding keep elem
diff xs ys = keep (λ x. not (elem x ys)) xs

unfoldable pub discard : ℕ → List ℕ → List ℕ
unfolding keep
discard a xs = keep (λ x. not (x == a)) xs

-- a <= b
unfoldable pub subset : List ℕ → List ℕ → Bool
unfolding elem
subset [] ys = true
subset (x ∷ xs) ys = elem x ys && subset xs ys

-- len(s) == 0
abbrev pub is_empty {ℓ} : {A : Type ℓ} → List A → Bool
is_empty [] = true
is_empty (_ ∷ _) = false

pub elem-nil : (x : ℕ) → elem x [] ≡ false
unfolding elem
elem-nil x = refl

pub elem-cons : (x y : ℕ) (ys : List ℕ) → elem x (y ∷ ys) ≡ (x == y || elem x ys)
unfolding elem
elem-cons x y ys = refl

pub elem-add : (x y : ℕ) (ys : List ℕ) → elem x (add y ys) ≡ (x == y || elem x ys)
unfolding add
elem-add x y ys = ground (arith, λ (e : x ≡ y). ap (λ z. elem z ys) e)

pub elem-union : (x : ℕ) (xs ys : List ℕ) → elem x (union xs ys) ≡ (elem x xs || elem x ys)
unfolding union elem
elem-union x [] ys = refl
elem-union x (y ∷ xs) ys = ground (arith, elem-add x y (union xs ys), elem-union x xs ys)

pub elem-keep : (x : ℕ) (p : ℕ → Bool) (xs : List ℕ) → elem x (keep p xs) ≡ (elem x xs && p x)
unfolding keep elem
elem-keep x p [] = refl
elem-keep x p (y ∷ xs) = ground (arith, elem-keep x p xs, λ (e : x ≡ y). ap p e)

pub elem-inter : (x : ℕ) (xs ys : List ℕ) → elem x (inter xs ys) ≡ (elem x xs && elem x ys)
unfolding inter
elem-inter x xs ys = elem-keep x (λ z. elem z ys) xs

pub elem-diff : (x : ℕ) (xs ys : List ℕ) → elem x (diff xs ys) ≡ (elem x xs && not (elem x ys))
unfolding diff
elem-diff x xs ys = elem-keep x (λ z. not (elem z ys)) xs

pub elem-discard : (x a : ℕ) (xs : List ℕ) → elem x (discard a xs) ≡ (elem x xs && not (x == a))
unfolding discard
elem-discard x a xs = elem-keep x (λ z. not (z == a)) xs

pub elem-append : (x : ℕ) (xs ys : List ℕ) → elem x (xs ++ ys) ≡ (elem x xs || elem x ys)
unfolding elem
elem-append x [] ys = refl
elem-append x (y ∷ xs) ys = ground (arith, elem-append x xs ys)

-- The test for inclusion says what it is named for.
pub subset_sound :
    (xs ys : List ℕ) (x : ℕ) → subset xs ys ≡ true → elem x xs ≡ true → elem x ys ≡ true
unfolding subset elem
subset_sound [] ys x h m = cc
subset_sound (y ∷ xs) ys x h m =
    ground (arith, subset_sound xs ys x, λ (e : x ≡ y). ap (λ z. elem z ys) e)

pub length-keep-le : (p : ℕ → Bool) (xs : List ℕ) → length (keep p xs) ≤ length xs
unfolding keep
length-keep-le p [] = omega arith
length-keep-le p (x ∷ xs) = ground (arith, length-keep-le p xs)

pub length-keep_mono :
    (p q : ℕ → Bool) (xs : List ℕ)
    → ((x : ℕ) → q x ≡ true → p x ≡ true)
    → length (keep q xs) ≤ length (keep p xs)
unfolding keep
length-keep_mono p q [] h = omega arith
length-keep_mono p q (x ∷ xs) h = ground (arith, length-keep_mono p q xs h, h x)

-- Where one element fewer passes a test, fewer elements are kept.
pub length-keep-lt :
    (p q : ℕ → Bool) (a : ℕ) (xs : List ℕ)
    → ((x : ℕ) → q x ≡ true → p x ≡ true)
    → elem a xs ≡ true
    → p a ≡ true
    → q a ≡ false
    → length (keep q xs) < length (keep p xs)
unfolding keep elem
length-keep-lt p q a [] h m yes_p no_q = cc
length-keep-lt p q a (x ∷ xs) h m yes_p no_q = ground (
  arith,
  length-keep-lt p q a xs h,
  length-keep_mono p q xs h,
  h x,
  λ (e : a ≡ x). ap p e,
  λ (e : a ≡ x). ap q e,
)
