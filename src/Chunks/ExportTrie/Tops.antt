-- ===== src/Chunks/ExportTrie/Tops.antt =====
-- place_nodes of macho/chunks/export_trie.rs, on the nodes of a trie in pre-order: the root, then
-- the subtrees of its edges.
use mold_macho.Chunks.ExportTrie.{
  child, children_of, Children, no_child, index_of, trie_node, Export, TrieNode,
}
use mold_macho.Chunks.ExportTrie.Loop.{loop-node}
use mold_macho.Chunks.ExportTrie.Numbered.{IsNumbered, node_counts, node_count}
use mold_macho.Chunks.ExportTrie.Placing.{
  kid_indices, place_nodes, place_tops, fixed_size, Placement, place_loop,
}
use mold_macho.Chunks.ExportTrie.Slots.{preorder, length-preorder}
use mold_macho.Chunks.ExportTrie.Walk.{
  steps-le, StandAll, Stands, place, place_all, steps, preorder-Stands, length-place,
}
use mold_macho.Prelude.{
  ◌%◌, ◌∷◌, [], length, ◌*◌, map, ◌∙◌, ◌^◌, set, List, zero, ap, replicate, ℕ, suc,
  length-replicate, arith, Option, some, ◌+◌, refl, ◌-◌, ◌≡◌, ◌≤◌,
}

loop_ends :
    (fuel : ℕ) (fixed : List ℕ) (kids : List (List ℕ)) (p : Placement)
    → place_loop fuel fixed kids [] p ≡ some p
unfolding place_loop
loop_ends zero fixed kids p = refl
loop_ends (suc fuel) fixed kids p = refl

abbrev fixed_of : List TrieNode → List ℕ
fixed_of nodes = map fixed_size nodes

abbrev kids_in : List TrieNode → List (List ℕ)
kids_in nodes = map (λ (n : TrieNode). kid_indices (children_of n)) nodes

place_top :
    (nodes : List TrieNode) (fuel : ℕ) (node : TrieNode) (p : Placement)
    → Stands nodes node
    → steps node ≤ fuel
    → length p.offs ≡ length nodes
    → place_loop fuel (fixed_of nodes) (kids_in nodes) ((index_of node, 0) ∷ []) p
      ≡ some (place node p)
place_top nodes fuel node p at h len =
    let rest = fuel - steps node in
    let split : fuel ≡ steps node + rest = omega arith in
    ap (λ (n : ℕ). place_loop n (fixed_of nodes) (kids_in nodes) ((index_of node, 0) ∷ []) p) split
    ∙ (loop-node nodes node rest [] p at len
        ∙ loop_ends rest (fixed_of nodes) (kids_in nodes) (place node p))

place_tops-place_all :
    (nodes : List TrieNode) (fuel : ℕ) (edges : Children) (p : Placement)
    → StandAll nodes edges
    → 2 * node_counts edges ≤ fuel
    → length p.offs ≡ length nodes
    → place_tops fuel (fixed_of nodes) (kids_in nodes) (kid_indices edges) p
      ≡ some (place_all edges p)
unfolding place_tops place kid_indices Stands node_count
place_tops-place_all nodes fuel no_child p at h len = refl
place_tops-place_all nodes fuel (child label node edges) p (at, more) h len =
    rw
      (
        place_top nodes fuel node p at (omega (arith, steps-le node)) len,
        place_tops-place_all nodes fuel edges (place node p) more (omega arith)
            ((length-place node p).0 ∙ len),
      )
      refl

-- What is placed before the root's edges.
unfoldable pub root_placed : ℕ → TrieNode → Placement
unfolding fixed_size
root_placed n node =
    let size = (fixed_size node + 5 * length (kid_indices (children_of node))) % 2 ^ 32 in
    record {
      offs = replicate n 0;
      sizes = set (replicate n 0) 0 size;
      order = 0 ∷ [];
      total = size;
    }

pub place_nodes-preorder :
    (edges : Children) (export : Option Export) (s : ℕ)
    → IsNumbered 0 (trie_node edges export 0 s)
    → let root = trie_node edges export 0 s in
      place_nodes (preorder root) ≡ some (place_all edges (root_placed (node_count root) root))
unfolding place_nodes preorder Stands node_count root_placed
place_nodes-preorder edges export s is_numbered =
    let root = trie_node edges export 0 s in
    let nodes = preorder root in
    let (at, stand) = preorder-Stands root is_numbered in
    let count = length-preorder root in
    place_tops-place_all nodes (2 * length nodes) edges (root_placed (length nodes) root) stand
      (omega (arith, count)) (length-replicate (length nodes) 0)
    ∙ ap (λ n. some (place_all edges (root_placed n root))) count
