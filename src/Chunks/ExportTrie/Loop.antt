-- ===== src/Chunks/ExportTrie/Loop.antt =====
-- The loop of place_nodes of macho/chunks/export_trie.rs, on the array of a trie's nodes, ends with
-- the nodes placed as the recursion over the tree places them.
use mold_macho.Chunks.ExportTrie.{
  child, TrieNode, Export, Children, children_of, index_of, no_child, trie_node,
}
use mold_macho.Chunks.ExportTrie.Placing.{
  kid_indices, Placement, place_node, place_loop, fixed_size, edge_sizes, next_kid,
}
use mold_macho.Chunks.ExportTrie.Walk.{
  edge_total, place_all, Stands, place, steps_all, put_node, StandAll, node_size, steps,
  length-place, off_of, length-place_all,
}
use mold_macho.Prelude.{
  [], zero, Option, ◌∷◌, ap, ◌+◌, ◌∙◌, refl, ℕ, List, get_elem?, arith, suc, ◌≡◌, some, ◌++◌, ◌<◌,
  length, map, length-append, append_assoc, sym, ap₂, append-nil, none,
}
use mold_macho.Prelude.Fallible.{some_inj, ◌>>=◌}
use mold_macho.Prelude.Slices.{get_elem?-in, get_elem?-append_here}

get_elem?-map {ℓ κ} :
    {A : Type ℓ} {B : Type κ} (f : A → B) (xs : List A) (k : ℕ) (x : A)
    → get_elem? xs k ≡ some x
    → get_elem? (map f xs) k ≡ some (f x)
get_elem?-map f [] k x h = absurd cc
get_elem?-map f (y ∷ xs) zero x h = ap some (ap f (some_inj h))
get_elem?-map f (y ∷ xs) (suc k) x h = get_elem?-map f xs k x h

pub found_off : (xs : List ℕ) (k : ℕ) → k < length xs → get_elem? xs k ≡ some (off_of xs k)
found_off [] k h = absurd (omega arith)
found_off (x ∷ xs) zero h = refl
found_off (x ∷ xs) (suc k) h = found_off xs k (omega arith)

get_elem?-end : (xs : List ℕ) → get_elem? xs (length xs) ≡ none
get_elem?-end [] = refl
get_elem?-end (x ∷ xs) = get_elem?-end xs

index-Stands :
    (nodes : List TrieNode) (node : TrieNode) → Stands nodes node → index_of node < length nodes
unfolding Stands
index-Stands nodes (trie_node edges export i s) (at, h) =
    get_elem?-in nodes i (trie_node edges export i s) at

abbrev kids_of : TrieNode → List ℕ
kids_of node = kid_indices (children_of node)

module _ (nodes : List TrieNode) where
  abbrev fixed : List ℕ
  fixed = map fixed_size nodes

  abbrev kids : List (List ℕ)
  kids = map kids_of nodes

  edge_sizes-edge_total :
      (offs : List ℕ) (edges : Children)
      → StandAll nodes edges
      → length offs ≡ length nodes
      → edge_sizes offs (kid_indices edges) ≡ some (edge_total offs edges)
  unfolding edge_sizes edge_total kid_indices Stands
  edge_sizes-edge_total offs no_child h len = refl
  edge_sizes-edge_total offs (child label node edges) (here, h) len =
      let at = found_off offs (index_of node) (omega (arith, index-Stands nodes node here, len)) in
      rw (at, edge_sizes-edge_total offs edges h len) refl

  place_node-put_node :
      (edges : Children) (export : Option Export) (i s : ℕ) (p : Placement)
      → Stands nodes (trie_node edges export i s)
      → length p.offs ≡ length nodes
      → place_node fixed (kid_indices edges) i p ≡ some (put_node (trie_node edges export i s) p)
  unfolding place_node put_node Stands node_size
  place_node-put_node edges export i s p (at, h) len =
      rw
        (
          edge_sizes-edge_total p.offs edges h len,
          get_elem?-map fixed_size nodes i (trie_node edges export i s) at,
        )
        refl

  -- A round that takes the next child, and the round that places the node.
  next_child :
      (fuel : ℕ) (stack : List (ℕ × ℕ)) (p : Placement) (i : ℕ) (ks : List ℕ) (k c : ℕ)
      → get_elem? kids i ≡ some ks
      → get_elem? ks k ≡ some c
      → place_loop (suc fuel) fixed kids ((i, k) ∷ stack) p
        ≡ place_loop fuel fixed kids ((c, 0) ∷ (i, k + 1) ∷ stack) p
  unfolding place_loop
  next_child fuel stack p i ks k c here next =
      let kid : next_kid kids i k ≡ some (ks, some c) =
        unfold next_kid in
        ap (λ r. r >>= (λ l. some (l, get_elem? l k))) here ∙ ap (λ o. some (ks, o)) next in
      rw kid refl

  last_round :
      (fuel : ℕ) (stack : List (ℕ × ℕ)) (p p' : Placement) (i : ℕ) (ks : List ℕ)
      → get_elem? kids i ≡ some ks
      → place_node fixed ks i p ≡ some p'
      → place_loop (suc fuel) fixed kids ((i, length ks) ∷ stack) p
        ≡ place_loop fuel fixed kids stack p'
  unfolding place_loop
  last_round fuel stack p p' i ks here placed =
      let kid : next_kid kids i (length ks) ≡ some (ks, none) =
        unfold next_kid in
        ap (λ r. r >>= (λ l. some (l, get_elem? l (length ks)))) here
        ∙ ap (λ o. some (ks, o)) (get_elem?-end ks) in
      rw (kid, placed) refl

  mutual
    unfolding place_loop place steps Stands kid_indices

    pub loop-node :
        (node : TrieNode) (fuel : ℕ) (stack : List (ℕ × ℕ)) (p : Placement)
        → Stands nodes node
        → length p.offs ≡ length nodes
        → place_loop (steps node + fuel) fixed kids ((index_of node, 0) ∷ stack) p
          ≡ place_loop fuel fixed kids stack (place node p)
    loop-node (trie_node edges export i s) fuel stack p (at, h) len =
        let me = trie_node edges export i s in
        let ks = kid_indices edges in
        let here : get_elem? kids i ≡ some ks = get_elem?-map kids_of nodes i me at in
        let count : 1 + steps_all edges + fuel ≡ steps_all edges + suc fuel = omega arith in
        let done = place_all edges p in
        ap (λ n. place_loop n fixed kids ((i, 0) ∷ stack) p) count
        ∙ (loop-edges edges (suc fuel) stack p i ks [] here refl h len
            ∙ last_round fuel stack done (place me p) i ks here (
                place_node-put_node edges export i s done (at, h)
                  ((length-place_all edges p).0 ∙ len)))

    loop-edges :
        (edges : Children) (fuel : ℕ) (stack : List (ℕ × ℕ)) (p : Placement) (i : ℕ)
        (ks before_them : List ℕ)
        → get_elem? kids i ≡ some ks
        → ks ≡ before_them ++ kid_indices edges
        → StandAll nodes edges
        → length p.offs ≡ length nodes
        → place_loop (steps_all edges + fuel) fixed kids ((i, length before_them) ∷ stack) p
          ≡ place_loop fuel fixed kids ((i, length ks) ∷ stack) (place_all edges p)
    loop-edges no_child fuel stack p i ks before_them here split h len =
        let all : length before_them ≡ length ks =
          omega (arith, ap length (split ∙ append-nil before_them)) in
        let none_left : 0 + fuel ≡ fuel = omega arith in
        ap₂ (λ n k. place_loop n fixed kids ((i, k) ∷ stack) p) none_left all
    loop-edges (child label node edges) fuel stack p i ks before_them here split (at, h) len =
        let c = index_of node in
        let rest = kid_indices edges in
        let next : get_elem? ks (length before_them) ≡ some c =
          ap (λ l. get_elem? l (length before_them)) split
          ∙ get_elem?-append_here before_them rest c in
        let after_it = before_them ++ c ∷ [] in
        let len' : length before_them + 1 ≡ length after_it =
          omega (arith, length-append before_them (c ∷ [])) in
        let count : 1 + (steps node + steps_all edges) + fuel
            ≡ suc (steps node + (steps_all edges + fuel)) =
          omega arith in
        let more = steps_all edges + fuel in
        ap (λ n. place_loop n fixed kids ((i, length before_them) ∷ stack) p) count
        ∙ (next_child (steps node + more) stack p i ks (length before_them) c here next
            ∙ (loop-node node more ((i, length before_them + 1) ∷ stack) p at len
                ∙ (ap (λ k. place_loop more fixed kids ((i, k) ∷ stack) (place node p)) len'
                    ∙ loop-edges edges fuel stack (place node p) i ks after_it here
                        (split ∙ sym (append_assoc before_them (c ∷ []) rest)) h
                        ((length-place node p).0 ∙ len))))
