-- ===== src/Frontend/Closing.antt =====
-- What a step of the loop of `_compute_waiter_and_ready_maker_links` in core/ipyflow/frontend.py does.
use ipyflow.Base.{
  ℕ, ◌<◌, ◌≡◌, refl, ap, ◌∙◌, true, false, List, [], ◌∷◌, insert, add, union, inter, discard, keep,
  length, elem, elem-nil, elem-cons, elem-union, elem-inter, elem-discard, lookup-insert, lookup_or,
  Bool-cases, ◌⊎◌, inl, inr, ◌==◌, ◌&&◌, ◌||◌, not, if◌then◌else◌, arith,
}
use ipyflow.Slicing.EdgeSets.{Edges, syms_of}
use ipyflow.Frontend.Links.{union_of, closer_links}

discard-add :
    (id x : ℕ) (xs : List ℕ)
    → discard id (add x xs) ≡ (if elem x xs || x == id then discard id xs else x ∷ discard id xs)
unfolding discard keep add
discard-add id x xs = ground arith

-- A set that is joined with others, without one element, stays as it is or gains something.
join_cases :
    (id : ℕ) (xs ys : List ℕ)
    → ((length (discard id (union xs ys)) ≡ length (discard id ys))
        × ((x : ℕ) → elem x (discard id (union xs ys)) ≡ elem x (discard id ys)))
      ⊎ ((length (discard id ys) < length (discard id (union xs ys)))
          × ((a : ℕ) × (elem a (discard id (union xs ys)) ≡ true)
              × (elem a (discard id ys) ≡ false)))
unfolding union
join_cases id [] ys = inl (refl, λ x. refl)
join_cases id (x ∷ xs) ys = elim (Bool-cases (elem x (union xs ys) || x == id)) [
  | inl old ↦ rw (discard-add id x (union xs ys), old) (join_cases id xs ys)
  | inr new ↦
      rw (discard-add id x (union xs ys), new)
        (inr (
          elim (join_cases id xs ys) [ inl (same, _) ↦ omega arith | inr (less, _) ↦ omega arith ],
          (
            x,
            ground (arith, elem-cons x x (discard id (union xs ys))),
            ground (arith, new, elem-discard x id ys, elem-union x xs ys),
          ),
        ))
]

syms_of-insert :
    (k id : ℕ) (v : List ℕ) (links : Edges)
    → syms_of (insert id v links) k ≡ (if k == id then v else syms_of links k)
unfolding syms_of lookup_or
syms_of-insert k id v links = ground (arith, lookup-insert k id v links)

union_of-elem :
    (r x : ℕ) (ks : List ℕ) (links : Edges)
    → elem r ks ≡ true
    → elem x (syms_of links r) ≡ true
    → elem x (union_of ks links) ≡ true
unfolding union_of
union_of-elem r x [] links m h = absurd (ground (arith, elem-nil r))
union_of-elem r x (k ∷ ks) links m h = ground (
  arith,
  elem-cons r k ks,
  elem-union x (syms_of links k) (union_of ks links),
  union_of-elem r x ks links,
  λ (e : r ≡ k). ap (λ z. elem x (syms_of links z)) e,
)

union_of-within :
    (x : ℕ) (ks all : List ℕ) (links : Edges)
    → ((k x : ℕ) → elem x (syms_of links k) ≡ true → elem x all ≡ true)
    → elem x (union_of ks links) ≡ true
    → elem x all ≡ true
unfolding union_of
union_of-within x [] all links within m = absurd (ground (arith, elem-nil x))
union_of-within x (k ∷ ks) all links within m = ground (
  arith,
  elem-union x (syms_of links k) (union_of ks links),
  within k x,
  union_of-within x ks all links within,
)

discard-absent : (id : ℕ) (xs : List ℕ) → elem id xs ≡ false → discard id xs ≡ xs
unfolding discard keep
discard-absent id [] h = refl
discard-absent id (x ∷ xs) h = ground (arith, elem-cons id x xs, discard-absent id xs, h)

module _ (waiting all : List ℕ) where
  -- every link is one of `all`, and no waiting cell is linked to itself
  pub record IsProper (links : Edges) : Type 0 where
    pub within : (k x : ℕ) → elem x (syms_of links k) ≡ true → elem x all ≡ true
    pub irreflexive : (k : ℕ) → elem k waiting ≡ true → elem k (syms_of links k) ≡ false

  -- from `a` to `b` no link is lost
  abbrev pub Grows : Edges → Edges → Type 0
  Grows a b = (k x : ℕ) → elem x (syms_of a k) ≡ true → elem x (syms_of b k) ≡ true

  abbrev pub Equal : Edges → Edges → Type 0
  Equal a b = (k x : ℕ) → elem x (syms_of b k) ≡ elem x (syms_of a k)

  -- a waiting cell has a link more
  abbrev pub Gains : Edges → Edges → Type 0
  Gains a b =
      (k : ℕ) × (x : ℕ) × (elem k waiting ≡ true)
      × (elem x (syms_of b k) ≡ true)
      × (elem x (syms_of a k) ≡ false)

  closer_links-elem :
      (id x : ℕ) (links : Edges)
      → elem x (closer_links waiting id links) ≡ (
          (elem x (union_of (inter (syms_of links id) waiting) links) || elem x (syms_of links id))
          && not (x == id))
  unfolding closer_links
  closer_links-elem id x links = ground (
    arith,
    elem-discard x id
        (union (union_of (inter (syms_of links id) waiting) links) (syms_of links id)),
    elem-union x (union_of (inter (syms_of links id) waiting) links) (syms_of links id),
  )

  step-within :
      (id : ℕ) (links : Edges)
      → ((k x : ℕ) → elem x (syms_of links k) ≡ true → elem x all ≡ true)
      → (k x : ℕ) → elem x (syms_of (insert id (closer_links waiting id links) links) k) ≡ true
      → elem x all ≡ true
  step-within id links within k x m = ground (
    arith,
    rw (syms_of-insert k id (closer_links waiting id links) links) at m,
    closer_links-elem id x links,
    union_of-within x (inter (syms_of links id) waiting) all links within,
    within k x,
    within id x,
  )

  unfoldable pub step : ℕ → Edges → Edges
  step id links = insert id (closer_links waiting id links) links

  pub step-IsProper : (id : ℕ) (links : Edges) → IsProper links → IsProper (step id links)
  unfolding step
  step-IsProper id links p = record {
    within = step-within id links p.within;
    irreflexive = λ k w. ground (
      arith,
      ap (elem k) (syms_of-insert k id (closer_links waiting id links) links),
      closer_links-elem id k links,
      p.irreflexive k w,
    );
  }

  pub step-Grows :
      (id : ℕ) (links : Edges)
      → elem id waiting ≡ true
      → IsProper links
      → Grows links (step id links)
  unfolding step
  step-Grows id links w p k x m = ground (
    arith,
    ap (elem x) (syms_of-insert k id (closer_links waiting id links) links),
    closer_links-elem id x links,
    p.irreflexive id w,
    λ (e : k ≡ id). ap (λ z. elem x (syms_of links z)) e,
    λ (e : x ≡ id). ap (λ z. elem z (syms_of links id)) e,
  )

  -- Where the links of a cell are closed, what a waiting link leads to is a link.
  abbrev pub IsClosed : Edges → ℕ → Type 0
  IsClosed links id =
      (r x : ℕ)
      → (elem r (syms_of links id)
          && (elem r waiting
              && (elem x (syms_of links r) && (not (x == id) && not (elem x (syms_of links id))))))
        ≡ false

  -- a step that changes nothing, or gains a link, which its length shows
  -- the links of one cell, where the step finds none that is new
  step-IsClosed :
      (id : ℕ) (links : Edges)
      → ((x : ℕ) → elem x (closer_links waiting id links) ≡ elem x (syms_of links id))
      → Equal links (step id links) × IsClosed links id
  unfolding step
  step-IsClosed id links equal = (
    λ k x. ground (
      arith,
      ap (elem x) (syms_of-insert k id (closer_links waiting id links) links),
      equal x,
      λ (e : k ≡ id). ap (λ z. elem x (syms_of links z)) e,
    ),
    λ r x. ground (
      arith,
      equal x,
      closer_links-elem id x links,
      union_of-elem r x (inter (syms_of links id) waiting) links,
      elem-inter r (syms_of links id) waiting,
    ),
  )

  pub step_cases :
      (id : ℕ) (links : Edges)
      → elem id waiting ≡ true
      → IsProper links
      → ((length (syms_of links id) == length (closer_links waiting id links)) ≡ true
          × (Equal links (step id links) × IsClosed links id))
        ⊎ ((length (syms_of links id) == length (closer_links waiting id links)) ≡ false
            × Gains links (step id links))
  unfolding step closer_links
  step_cases id links w p =
      let own = syms_of links id in
      let reached = union_of (inter own waiting) links in
      let alone : discard id own ≡ own = discard-absent id own (p.irreflexive id w) in
      elim (join_cases id reached own) [
        | inl (same, equal) ↦ inl (
          ground (arith, same, ap length alone),
          step-IsClosed id links (λ x. equal x ∙ ap (elem x) alone),
        )
        | inr (more, (a, gained, fresh)) ↦ inr (
          ground (arith, more, ap length alone),
          (
            id,
            a,
            w,
            ground (
              arith,
              gained,
              ap (elem a) (syms_of-insert id id (closer_links waiting id links) links),
            ),
            ground (arith, fresh, ap (elem a) alone),
          ),
        )
      ]
