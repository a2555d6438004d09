-- ===== src/Frontend/Closed.antt =====
-- The loop of `_compute_waiter_and_ready_maker_links` in core/ipyflow/frontend.py ends, and closes the
-- links of the waiting cells.
use Prim.Native.Nat.{◌*◌}
use ipyflow.Base.{
  ℕ, zero, suc, ◌+◌, ◌≤◌, ◌<◌, ◌≡◌, refl, sym, subst, ◌∙◌, Bool, true, false, some, List, [], ◌∷◌,
  keep, length, elem, elem-nil, elem-cons, length-keep-lt, length-keep-le, length-keep_mono,
  Bool-cases, ==_iff, ◌⊎◌, inl, inr, ◌==◌, ◌&&◌, not, arith,
}
use ipyflow.Slicing.EdgeSets.{Edges, syms_of}
use ipyflow.Frontend.Links.{link_pass, close_links}
use ipyflow.Frontend.Closing.{
  IsProper, Grows, Equal, Gains, IsClosed, step, step-IsProper, step-Grows, step_cases,
}

module _ (waiting all : List ℕ) where
  Equal-IsClosed :
      (a b : Edges) (id : ℕ)
      → Equal waiting all a b
      → IsClosed waiting all b id
      → IsClosed waiting all a id
  Equal-IsClosed a b id e closed r x = ground (arith, closed r x, e id r, e r x, e id x)

  Gains-before :
      (a b c : Edges) → Grows waiting all a b → Gains waiting all b c → Gains waiting all a c
  Gains-before a b c g (k, x, w, m, n) = (k, x, w, m, ground (arith, n, g k x))

  Gains-after :
      (a b c : Edges) → Gains waiting all a b → Grows waiting all b c → Gains waiting all a c
  Gains-after a b c (k, x, w, m, n) g = (k, x, w, g k x m, n)

  -- what a pass does
  record Passed (ids : List ℕ) (a b : Edges) (changed : Bool) : Type 0 where
    proper : IsProper waiting all b
    grows : Grows waiting all a b
    result :
        ((changed ≡ false)
          × (Equal waiting all a b × ((id : ℕ) → elem id ids ≡ true → IsClosed waiting all a id)))
        ⊎ ((changed ≡ true) × Gains waiting all a b)

  link_pass_lem :
      (ids : List ℕ) (links : Edges)
      → ((id : ℕ) → elem id ids ≡ true → elem id waiting ≡ true)
      → IsProper waiting all links
      → Passed ids links (link_pass waiting ids links).0 (link_pass waiting ids links).1
  unfolding link_pass step
  link_pass_lem [] links sub p = record {
    proper = p;
    grows = λ k x m. m;
    result = inl (refl, (λ k x. refl, λ id m. absurd (ground (arith, elem-nil id))));
  }
  link_pass_lem (id ∷ ids) links sub p =
      let w = sub id (ground (arith, elem-cons id id ids)) in
      let next = step waiting all id links in
      let rest =
        link_pass_lem ids next (λ q m. sub q (ground (arith, elem-cons q id ids)))
          (step-IsProper waiting all id links p) in
      let end = link_pass waiting ids next in
      record {
        proper = rest.proper;
        grows = λ k x m. rest.grows k x (step-Grows waiting all id links w p k x m);
        result = elim (step_cases waiting all id links w p) [
          | inr (differs, gains) ↦
              inr (rw differs refl, Gains-after links next end.0 gains rest.grows)
          | inl (same, (equal, closed)) ↦ elim rest.result [
            | inr (changed, gains) ↦ inr (
              rw (same, changed) refl,
              Gains-before links next end.0 (step-Grows waiting all id links w p) gains,
            )
            | inl (still, (equal', closed')) ↦ inl (
              rw (same, still) refl,
              (
                λ k x. equal' k x ∙ equal k x,
                λ q m. elim (Bool-cases (q == id)) [
                  | inl e ↦ subst (IsClosed waiting all links) (sym ((==_iff q id).0 e)) closed
                  | inr n ↦
                      Equal-IsClosed links next q equal
                        (closed' q (ground (arith, elem-cons q id ids)))
                ],
              ),
            )
          ]
        ];
      }

  -- the links that waiting cells may still gain
  rooms : List ℕ → Edges → ℕ
  rooms [] links = 0
  rooms (k ∷ ks) links = length (keep (λ x. not (elem x (syms_of links k))) all) + rooms ks links

  rooms_bound : (ks : List ℕ) (links : Edges) → rooms ks links ≤ length ks * length all
  unfolding rooms
  rooms_bound [] links = omega arith
  rooms_bound (k ∷ ks) links =
      omega (arith, rooms_bound ks links, length-keep-le (λ x. not (elem x (syms_of links k))) all)

  rooms_le : (ks : List ℕ) (a b : Edges) → Grows waiting all a b → rooms ks b ≤ rooms ks a
  unfolding rooms
  rooms_le [] a b g = omega arith
  rooms_le (k ∷ ks) a b g = omega (
    arith,
    rooms_le ks a b g,
    length-keep_mono (λ x. not (elem x (syms_of a k))) (λ x. not (elem x (syms_of b k))) all
        (λ x m. ground (arith, g k x)),
  )

  rooms_lt :
      (ks : List ℕ) (a b : Edges) (j x : ℕ)
      → Grows waiting all a b
      → elem j ks ≡ true
      → elem x all ≡ true
      → elem x (syms_of b j) ≡ true
      → elem x (syms_of a j) ≡ false
      → rooms ks b < rooms ks a
  unfolding rooms
  rooms_lt [] a b j x g m t y n = absurd (ground (arith, elem-nil j))
  rooms_lt (k ∷ ks) a b j x g m t y n = elim (Bool-cases (j == k)) [
    | inl e ↦
        let same = (==_iff j k).0 e in
        omega (
          arith,
          rooms_le ks a b g,
          length-keep-lt (λ z. not (elem z (syms_of a k))) (λ z. not (elem z (syms_of b k))) x all
              (λ z m. ground (arith, g k z)) t
              (rw (subst (λ z. elem x (syms_of a z) ≡ false) same n) refl)
              (rw (subst (λ z. elem x (syms_of b z) ≡ true) same y) refl),
        )
    | inr d ↦ omega (
      arith,
      rooms_lt ks a b j x g (ground (arith, elem-cons j k ks)) t y n,
      length-keep_mono (λ z. not (elem z (syms_of a k))) (λ z. not (elem z (syms_of b k))) all
          (λ z m. ground (arith, g k z)),
    )
  ]

  close_links-IsProper :
      (fuel : ℕ) (links : Edges)
      → IsProper waiting all links
      → rooms waiting links < fuel
      → (links' : Edges) × (close_links fuel waiting links ≡ some links')
        × Grows waiting all links links'
        × IsProper waiting all links'
        × ((id : ℕ) → elem id waiting ≡ true → IsClosed waiting all links' id)
  unfolding close_links
  close_links-IsProper zero links p h = absurd (omega arith)
  close_links-IsProper (suc fuel) links p h =
      let pass = link_pass_lem waiting links (λ id m. m) p in
      let next = (link_pass waiting waiting links).0 in
      elim pass.result [
        | inl (still, (equal, closed)) ↦ (
          next,
          rw still refl,
          pass.grows,
          pass.proper,
          λ id m. Equal-IsClosed next links id (λ k x. sym (equal k x)) (closed id m),
        )
        | inr (changed, (k, x, w, m, n)) ↦
            let (last, ran, grows, proper, closed) = close_links-IsProper fuel next pass.proper (
              omega (
                arith,
                rooms_lt waiting links next k x pass.grows w (pass.proper.within k x m) m n,
              )) in
            (last, rw changed ran, (λ j y q. grows j y (pass.grows j y q)), proper, closed)
      ]

-- Where every link is one of a list of cells and no waiting cell is linked to itself, the loop that
-- closes the links of the waiting cells ends, with fuel for more than as many rounds as there are pairs
-- of a waiting cell and a cell of the list. No link is lost; each is one of the list; no waiting
-- cell is linked to itself; and what a waiting cell reaches through a link that waits, but for itself,
-- it is linked to.
pub close_links_lem :
    (waiting all : List ℕ) (fuel : ℕ) (links : Edges)
    → ((k x : ℕ) → elem x (syms_of links k) ≡ true → elem x all ≡ true)
    → ((k : ℕ) → elem k waiting ≡ true → elem k (syms_of links k) ≡ false)
    → length waiting * length all < fuel
    → (links' : Edges) × (close_links fuel waiting links ≡ some links')
      × ((k x : ℕ) → (elem x (syms_of links k) && not (elem x (syms_of links' k))) ≡ false)
      × ((k x : ℕ) → (elem x (syms_of links' k) && not (elem x all)) ≡ false)
      × ((k : ℕ) → (elem k waiting && elem k (syms_of links' k)) ≡ false)
      × ((id r x : ℕ)
          → (elem id waiting
              && (elem r (syms_of links' id)
                  && (elem r waiting
                      && (elem x (syms_of links' r)
                          && (not (x == id) && not (elem x (syms_of links' id)))))))
            ≡ false)
close_links_lem waiting all fuel links within irreflexive h =
    let (links', ran, grows, proper, closed) =
      close_links-IsProper waiting all fuel links
        (record { within = within; irreflexive = irreflexive })
        (omega (arith, rooms_bound waiting all waiting links)) in
    (
      links',
      ran,
      λ k x. ground (arith, grows k x),
      λ k x. ground (arith, proper.within k x),
      λ k. ground (arith, proper.irreflexive k),
      λ id r x. elim (Bool-cases (elem id waiting)) [
        | inl w ↦ ground (arith, closed id w r x)
        | inr n ↦ ground arith
      ],
    )
