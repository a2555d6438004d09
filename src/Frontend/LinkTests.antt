-- ===== src/Frontend/LinkTests.antt =====
-- A check of the loop that closes waiter links (core/ipyflow/frontend.py), and its theorem at a
-- concrete input.
use ipyflow.Base.{
  ℕ, ◌≡◌, refl, true, false, some, [], ◌∷◌, elem, lookup_or, lookup, not, ◌==◌, ◌&&◌, arith,
}
use ipyflow.Slicing.EdgeSets.{Edges, syms_of}
use ipyflow.Frontend.Links.{close_links}
use ipyflow.Frontend.Closed.{close_links_lem}

-- cell 1 waits for 2, which waits for 3, which is ready
abbrev chain : Edges
chain = (1, 2 ∷ []) ∷ (2, 3 ∷ []) ∷ []

chain_closed : close_links 3 (1 ∷ 2 ∷ []) chain ≡ some ((1, 3 ∷ 2 ∷ []) ∷ (2, 3 ∷ []) ∷ [])
unfolding close_links
chain_closed = refl

chain_within : (k x : ℕ) → elem x (syms_of chain k) ≡ true → elem x (2 ∷ 3 ∷ []) ≡ true
unfolding syms_of lookup_or lookup elem
chain_within k x m = ground arith

chain_irreflexive : (k : ℕ) → elem k (1 ∷ 2 ∷ []) ≡ true → elem k (syms_of chain k) ≡ false
unfolding syms_of lookup_or lookup elem
chain_irreflexive k m = ground arith

close_links_lem_example :
    (links' : Edges) × (close_links 5 (1 ∷ 2 ∷ []) chain ≡ some links')
    × ((k x : ℕ) → (elem x (syms_of chain k) && not (elem x (syms_of links' k))) ≡ false)
    × ((k x : ℕ) → (elem x (syms_of links' k) && not (elem x (2 ∷ 3 ∷ []))) ≡ false)
    × ((k : ℕ) → (elem k (1 ∷ 2 ∷ []) && elem k (syms_of links' k)) ≡ false)
    × ((id r x : ℕ)
        → (elem id (1 ∷ 2 ∷ [])
            && (elem r (syms_of links' id)
                && (elem r (1 ∷ 2 ∷ [])
                    && (elem x (syms_of links' r)
                        && (not (x == id) && not (elem x (syms_of links' id)))))))
          ≡ false)
close_links_lem_example =
    close_links_lem (1 ∷ 2 ∷ []) (2 ∷ 3 ∷ []) 5 chain chain_within chain_irreflexive (omega arith)
