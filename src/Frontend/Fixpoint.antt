-- ===== src/Frontend/Fixpoint.antt =====
-- The waiting cells of core/ipyflow/frontend.py are the least set that holds the given ones and
-- every checked cell with a parent that is ready or in the set; and the loop that finds them ends.
use ipyflow.Base.{
  ℕ, suc, ◌<◌, ◌≡◌, refl, sym, ap, subst, ◌⊎◌, inl, inr, true, false, List, [], ◌∷◌, elem, elem-nil,
  elem-cons, elem-add, add, subset, length, keep, length-keep-lt, Bool-cases, ◌==◌, ◌&&◌, ◌||◌, not,
  if◌then◌else◌, arith,
}
use ipyflow.Frontend.Waiting.{Checked, meets, pass, same_set}

-- A checked cell stands in the list with the parents `ps`.
pub data Listed : List Checked → ℕ → List ℕ → Type 0 where
  first : {c : Checked} {cs : List Checked} → Listed (c ∷ cs) c.id c.parents
  later :
      {c : Checked} {cs : List Checked} {id : ℕ} {ps : List ℕ}
      → Listed cs id ps
      → Listed (c ∷ cs) id ps

-- `x` waits at the start, or has a parent that is ready or waits.
pub data Waits (ready start : List ℕ) (cs : List Checked) : ℕ → Type 0 where
  given : {x : ℕ} → elem x start ≡ true → Waits ready start cs x
  for_ready :
      {x : ℕ} {ps : List ℕ}
      → Listed cs x ps
      → (p : ℕ) → elem p ps ≡ true
      → elem p ready ≡ true
      → Waits ready start cs x
  for_waiting :
      {x : ℕ} {ps : List ℕ}
      → Listed cs x ps
      → (p : ℕ) → elem p ps ≡ true
      → Waits ready start cs p
      → Waits ready start cs x

meets_sound :
    (ps ready w : List ℕ)
    → meets ps ready w ≡ true
    → (p : ℕ) × (elem p ps ≡ true) × ((elem p ready ≡ true) ⊎ (elem p w ≡ true))
unfolding meets
meets_sound [] ready w h = cc
meets_sound (p ∷ ps) ready w h = elim (Bool-cases (elem p ready || elem p w)) [
  | inl hit ↦ (p, ground (arith, elem-cons p p ps), ground arith)
  | inr miss ↦
      let (q, m, k) = meets_sound ps ready w (ground arith) in
      (q, ground (arith, elem-cons q p ps), k)
]

pub meets_complete :
    (p : ℕ) (ps ready w : List ℕ)
    → elem p ps ≡ true
    → (elem p ready || elem p w) ≡ true
    → meets ps ready w ≡ true
unfolding meets
meets_complete p [] ready w m h = absurd (ground (arith, elem-nil p))
meets_complete p (q ∷ ps) ready w m h = ground (
  arith,
  elem-cons p q ps,
  meets_complete p ps ready w,
  λ (e : p ≡ q). ap (λ z. elem z ready) e,
  λ (e : p ≡ q). ap (λ z. elem z w) e,
)

-- The set at which one cell's turn in a pass leaves the waiting cells.
abbrev turn : List ℕ → Checked → List ℕ → List ℕ
turn ready c w = if not (elem c.id w) && meets c.parents ready w then add c.id w else w

elem-turn :
    (ready : List ℕ) (c : Checked) (w : List ℕ) (x : ℕ)
    → elem x (turn ready c w) ≡ (elem x w || (x == c.id && meets c.parents ready w))
elem-turn ready c w x = ground (arith, elem-add x c.id w, λ (e : x ≡ c.id). ap (λ z. elem z w) e)

pub pass_grows :
    (ready : List ℕ) (cs : List Checked) (w : List ℕ) (x : ℕ)
    → elem x w ≡ true
    → elem x (pass ready cs w) ≡ true
unfolding pass
pass_grows ready [] w x m = m
pass_grows ready (c ∷ cs) w x m =
    pass_grows ready cs (turn ready c w) x (ground (arith, elem-turn ready c w x))

pub meets_mono :
    (ps ready w w' : List ℕ)
    → ((x : ℕ) → elem x w ≡ true → elem x w' ≡ true)
    → meets ps ready w ≡ true
    → meets ps ready w' ≡ true
meets_mono ps ready w w' sub h =
    let (p, m, k) = meets_sound ps ready w h in
    elim k [
      | inl r ↦ meets_complete p ps ready w' m (ground arith)
      | inr q ↦ meets_complete p ps ready w' m (ground (arith, sub p q))
    ]

pub pass_closed :
    (ready : List ℕ) {cs : List Checked} {id : ℕ} {ps : List ℕ}
    → Listed cs id ps
    → (w : List ℕ) → meets ps ready w ≡ true
    → elem id (pass ready cs w) ≡ true
unfolding pass
pass_closed ready (first {c} {cs}) w h =
    pass_grows ready cs (turn ready c w) c.id (ground (arith, elem-turn ready c w c.id))
pass_closed ready (later {c} {ps = ps} l) w h =
    pass_closed ready l (turn ready c w)
      (meets_mono ps ready w (turn ready c w) (λ x m. ground (arith, elem-turn ready c w x)) h)

module _ (ready start : List ℕ) (all : List Checked) where
  abbrev pub Sound : List ℕ → Type 0
  Sound w = (x : ℕ) → elem x w ≡ true → Waits ready start all x

  turn-Sound :
      (c : Checked) → Listed all c.id c.parents → (w : List ℕ) → Sound w → Sound (turn ready c w)
  turn-Sound c l w s x m = elim (Bool-cases (elem x w)) [
    | inl old ↦ s x old
    | inr new ↦
        let hit : meets c.parents ready w ≡ true = ground (arith, elem-turn ready c w x) in
        let same : x ≡ c.id = ground (arith, elem-turn ready c w x) in
        let (p, listed, k) = meets_sound c.parents ready w hit in
        subst (λ z. Waits ready start all z) (sym same)
          (elim k [ inl r ↦ for_ready l p listed r | inr q ↦ for_waiting l p listed (s p q) ])
  ]

  pub pass-Sound :
      (cs : List Checked)
      → ((id : ℕ) (ps : List ℕ) → Listed cs id ps → Listed all id ps)
      → (w : List ℕ) → Sound w
      → Sound (pass ready cs w)
  unfolding pass
  pass-Sound [] sub w s = s
  pass-Sound (c ∷ cs) sub w s =
      pass-Sound cs (λ id ps l. sub id ps (later l)) (turn ready c w)
        (turn-Sound c (sub c.id c.parents first) w s)

-- the identifiers of the cells to check
pub ids : List Checked → List ℕ
ids [] = []
ids (c ∷ cs) = c.id ∷ ids cs

pub length-ids : (cs : List Checked) → length (ids cs) ≡ length cs
unfolding ids
length-ids [] = refl
length-ids (c ∷ cs) = ap suc (length-ids cs)

pass_new :
    (ready : List ℕ) (cs : List Checked) (w : List ℕ) (x : ℕ)
    → elem x (pass ready cs w) ≡ true
    → (elem x w || elem x (ids cs)) ≡ true
unfolding pass ids
pass_new ready [] w x m = ground (arith, elem-nil x)
pass_new ready (c ∷ cs) w x m = ground (
  arith,
  elem-cons x c.id (ids cs),
  elem-turn ready c w x,
  pass_new ready cs (turn ready c w) x m,
)

-- Where one set does not include another, something is missing.
subset_witness :
    (xs ys : List ℕ) → subset xs ys ≡ false → (x : ℕ) × (elem x xs ≡ true) × (elem x ys ≡ false)
unfolding subset
subset_witness [] ys h = cc
subset_witness (x ∷ xs) ys h = elim (Bool-cases (elem x ys)) [
  | inr missing ↦ (x, ground (arith, elem-cons x x xs), missing)
  | inl there ↦
      let (z, m, n) = subset_witness xs ys (ground arith) in
      (z, ground (arith, elem-cons z x xs), n)
]

subset_complete :
    (xs ys : List ℕ) → ((x : ℕ) → elem x xs ≡ true → elem x ys ≡ true) → subset xs ys ≡ true
subset_complete xs ys sub = elim (Bool-cases (subset xs ys)) [
  | inl yes_sub ↦ yes_sub
  | inr not_sub ↦ let (x, m, n) = subset_witness xs ys not_sub in absurd (ground (arith, sub x m))
]

-- the checked cells that do not wait
unfoldable pub unsettled : List Checked → List ℕ → ℕ
unsettled cs w = length (keep (λ x. not (elem x w)) (ids cs))

pub pass_settles :
    (ready : List ℕ) (cs : List Checked) (w : List ℕ)
    → same_set w (pass ready cs w) ≡ false
    → unsettled cs (pass ready cs w) < unsettled cs w
unfolding unsettled same_set
pass_settles ready cs w h =
    let grown = pass_grows ready cs w in
    let (x, new, old) =
      subset_witness (pass ready cs w) w
        (ground (arith, subset_complete w (pass ready cs w) grown)) in
    length-keep-lt (λ z. not (elem z w)) (λ z. not (elem z (pass ready cs w))) x (ids cs)
      (λ z m. ground (arith, grown z)) (ground (arith, pass_new ready cs w x new)) (rw old) (rw new)
