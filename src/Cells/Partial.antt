-- ===== src/Cells/Partial.antt =====
-- What holds of the result of a method that may raise an exception, where it returns; for
-- core/ipyflow/data_model/cell.py and core/ipyflow/frontend.py.
use ipyflow.Base.{Bool, true, false, Option, none, some, ◌≡◌, refl, if◌then◌else◌}
use ipyflow.Cells.Lookup.{◌>>=◌}

-- a result that meets a predicate, where there is one
abbrev pub Holds {ℓ} : {A : Type ℓ} → (A → Type ℓ) → Option A → Type ℓ
Holds P none = Unit
Holds P (some a) = P a

pub Holds-bind :
    {A B : Type 0}
    → (P : B → Type 0) → (x : Option A) → (f : A → Option B)
    → ((a : A) → x ≡ some a → Holds P (f a))
    → Holds P (x >>= f)
Holds-bind P none f k = tt
Holds-bind P (some a) f k = k a refl

pub Holds-if :
    {A : Type 0}
    → (P : A → Type 0) → (b : Bool) → (x y : Option A) → (b ≡ true → Holds P x)
    → (b ≡ false → Holds P y)
    → Holds P (if b then x else y)
Holds-if P true x y p q = p refl
Holds-if P false x y p q = q refl

pub Holds-map :
    {A : Type 0}
    → (P Q : A → Type 0) → (x : Option A) → ((a : A) → x ≡ some a → P a → Q a)
    → Holds P x
    → Holds Q x
Holds-map P Q none f h = tt
Holds-map P Q (some a) f h = f a refl h

pub bind_assoc :
    {A B C : Type 0}
    → (x : Option A) → (f : A → Option B) → (g : B → Option C)
    → (x >>= λ a. f a >>= g) ≡ (x >>= f) >>= g
bind_assoc none f g = refl
bind_assoc (some a) f g = refl
