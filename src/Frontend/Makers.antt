-- ===== src/Frontend/Makers.antt =====
-- The end of `_compute_waiter_and_ready_maker_links` of core/ipyflow/frontend.py.
use ipyflow.Base.{
  ℕ, ◌≡◌, ap, true, List, [], ◌∷◌, insert, diff, add, elem, elem-nil, elem-cons, elem-add,
  elem-diff, ◌==◌, ◌&&◌, ◌||◌, not, arith,
}
use ipyflow.Slicing.EdgeSets.{Edges, syms_of}
use ipyflow.Frontend.Links.{add_maker, finish_links}
use ipyflow.Frontend.Children.{elem-syms_of-insert, elem-syms_of-nil}

add_maker_lem :
    (waiting_id w r : ℕ) (rs : List ℕ) (makers : Edges)
    → elem w (syms_of (add_maker waiting_id rs makers) r)
      ≡ ((w == waiting_id && elem r rs) || elem w (syms_of makers r))
unfolding add_maker
add_maker_lem waiting_id w r [] makers = ground (arith, elem-nil r)
add_maker_lem waiting_id w r (q ∷ rs) makers = ground (
  arith,
  add_maker_lem waiting_id w r rs (insert q (add waiting_id (syms_of makers q)) makers),
  elem-syms_of-insert w r q (add waiting_id (syms_of makers q)) makers,
  elem-add w waiting_id (syms_of makers q),
  elem-cons r q rs,
  λ (e : r ≡ q). ap (λ j. elem w (syms_of makers j)) e,
)

module _ (waiting : List ℕ) (w r : ℕ) where
  links_left :
      (ids : List ℕ) (links makers : Edges)
      → elem r (syms_of (finish_links waiting ids links makers).0 w)
        ≡ (elem r (syms_of links w) && not (elem w ids && elem r waiting))
  unfolding finish_links
  links_left [] links makers = ground (arith, elem-nil w)
  links_left (id ∷ ids) links makers =
      let kept = diff (syms_of links id) waiting in
      ground (
        arith,
        links_left ids (insert id kept links) (add_maker id kept makers),
        elem-syms_of-insert r w id kept links,
        elem-diff r (syms_of links id) waiting,
        elem-cons w id ids,
        λ (e : w ≡ id). ap (λ j. elem r (syms_of links j)) e,
      )

  makers_made :
      (ids : List ℕ) (links makers : Edges)
      → elem w (syms_of (finish_links waiting ids links makers).1 r) ≡ (
          (elem w ids && elem r (syms_of links w) && not (elem r waiting))
          || elem w (syms_of makers r))
  unfolding finish_links
  makers_made [] links makers = ground (arith, elem-nil w)
  makers_made (id ∷ ids) links makers =
      let kept = diff (syms_of links id) waiting in
      ground (
        arith,
        makers_made ids (insert id kept links) (add_maker id kept makers),
        add_maker_lem id w r kept makers,
        elem-syms_of-insert r w id kept links,
        elem-diff r (syms_of links id) waiting,
        elem-cons w id ids,
        λ (e : w ≡ id). ap (λ j. elem r (syms_of links j)) e,
      )

-- However the links were closed, at the end a waiting cell is linked to the cells that it was linked
-- to and that do not wait themselves, and these, and no others, are recorded as making it ready.
pub finish_links_lem :
    (waiting : List ℕ) (links : Edges) (w r : ℕ)
    → elem w waiting ≡ true
    → (elem r (syms_of (finish_links waiting waiting links []).0 w)
        ≡ (elem r (syms_of links w) && not (elem r waiting)))
      × (elem w (syms_of (finish_links waiting waiting links []).1 r)
          ≡ elem r (syms_of (finish_links waiting waiting links []).0 w))
finish_links_lem waiting links w r waits = ground (
  arith,
  links_left waiting w r waiting links [],
  makers_made waiting w r waiting links [],
  elem-syms_of-nil w r,
)
