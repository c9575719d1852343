-- ===== src/Chunks/ExportTrie/Walk.antt =====
-- The walk with a stack of place_nodes of macho/chunks/export_trie.rs places each subtree as the
-- recursion over the tree does.
use mathlib.Core.Path.{subst}
use mold_macho.Chunks.ExportTrie.{
  children_of, Children, trie_node, child, index_of, no_child, TrieNode,
}
use mold_macho.Chunks.ExportTrie.Numbered.{IsNumbered, node_count, AreNumbered, node_counts}
use mold_macho.Chunks.ExportTrie.Placing.{Placement, fixed_size}
use mold_macho.Chunks.ExportTrie.Slots.{preorder_all, length-preorder, preorder}
use mold_macho.Prelude.{
  sym, get_elem?, [], ℕ, set, length-set, ◌∙◌, ◌^◌, append-nil, append_assoc, arith, some, ◌≡◌, ◌+◌,
  ◌∷◌, refl, ◌%◌, List, length, ◌++◌, ◌*◌, none, length-append, ap, ◌≤◌,
}
use mold_macho.Prelude.Slices.{get_elem?-append_here}
use mold_macho.Util.Leb.{uleb_size}

-- The nodes of a subtree stand in the array, each at its index.
unfoldable mutual
  pub Stands : List TrieNode → TrieNode → Type 0
  Stands nodes (trie_node edges export i s) =
      (get_elem? nodes i ≡ some (trie_node edges export i s)) × StandAll nodes edges

  pub StandAll : List TrieNode → Children → Type 0
  StandAll nodes no_child = Unit
  StandAll nodes (child label node edges) = Stands nodes node × StandAll nodes edges

mutual
  unfolding preorder IsNumbered Stands node_count

  preorder-Stands_lem :
      (front back : List TrieNode) (node : TrieNode)
      → IsNumbered (length front) node
      → Stands (front ++ (preorder node ++ back)) node
  preorder-Stands_lem front back (trie_node edges export i s) (here, are) =
      let me = trie_node edges export i s in
      let next : length front + 1 ≡ length (front ++ me ∷ []) =
        omega (arith, length-append front (me ∷ [])) in
      let are' = subst (λ (k : ℕ). AreNumbered k edges) next are in
      (
        ap (get_elem? (front ++ me ∷ (preorder_all edges ++ back))) here
            ∙ get_elem?-append_here front (preorder_all edges ++ back) me,
        subst (λ (l : List TrieNode). StandAll l edges)
            (append_assoc front (me ∷ []) (preorder_all edges ++ back))
            (preorder_all-StandAll (front ++ me ∷ []) back edges are'),
      )

  preorder_all-StandAll :
      (front back : List TrieNode) (edges : Children)
      → AreNumbered (length front) edges
      → StandAll (front ++ (preorder_all edges ++ back)) edges
  preorder_all-StandAll front back no_child are = tt
  preorder_all-StandAll front back (child label node edges) (is_numbered, are) =
      let next : length front + node_count node ≡ length (front ++ preorder node) =
        omega (arith, length-append front (preorder node), length-preorder node) in
      let are' = subst (λ (k : ℕ). AreNumbered k edges) next are in
      let split = append_assoc (preorder node) (preorder_all edges) back in
      (
        subst (λ (l : List TrieNode). Stands (front ++ l) node) (sym split)
            (preorder-Stands_lem front (preorder_all edges ++ back) node is_numbered),
        subst (λ (l : List TrieNode). StandAll l edges)
            (append_assoc front (preorder node) (preorder_all edges ++ back)
              ∙ ap (λ l. front ++ l) (sym split))
            (preorder_all-StandAll (front ++ preorder node) back edges are'),
      )

pub preorder-Stands : (node : TrieNode) → IsNumbered 0 node → Stands (preorder node) node
preorder-Stands node h =
    subst (λ (l : List TrieNode). Stands l node) (append-nil (preorder node))
      (preorder-Stands_lem [] [] node h)

-- A node's offset, and a node's size with the offsets of its children.
abbrev pub off_of : List ℕ → ℕ → ℕ
off_of offs c = elim (get_elem? offs c) [ some off ↦ off | none ↦ 0 ]

unfoldable pub edge_total : List ℕ → Children → ℕ
edge_total offs no_child = 0
edge_total offs (child label node edges) =
    uleb_size (off_of offs (index_of node)) + edge_total offs edges

unfoldable pub node_size : List ℕ → TrieNode → ℕ
unfolding fixed_size edge_total
node_size offs node = fixed_size node + edge_total offs (children_of node)

unfoldable pub put_node : TrieNode → Placement → Placement
unfolding node_size
put_node node p = record {
  offs = set p.offs (index_of node) p.total;
  sizes = set p.sizes (index_of node) (node_size p.offs node % 2 ^ 32);
  order = p.order ++ index_of node ∷ [];
  total = (p.total + node_size p.offs node % 2 ^ 32) % 2 ^ 32;
}

unfoldable mutual
  unfolding put_node

  pub place : TrieNode → Placement → Placement
  place (trie_node edges export i s) p = put_node (trie_node edges export i s) (place_all edges p)

  pub place_all : Children → Placement → Placement
  place_all no_child p = p
  place_all (child label node edges) p = place_all edges (place node p)

mutual
  unfolding place put_node

  length-place_lem :
      (node : TrieNode) (p : Placement)
      → (length (place node p).offs ≡ length p.offs)
        × (length (place node p).sizes ≡ length p.sizes)
  length-place_lem (trie_node edges export i s) p =
      let (offs, sizes) = length-place_all edges p in
      let q = place_all edges p in
      (
        length-set q.offs i q.total ∙ offs,
        length-set q.sizes i (node_size q.offs (trie_node edges export i s) % 2 ^ 32) ∙ sizes,
      )

  pub length-place_all :
      (edges : Children) (p : Placement)
      → (length (place_all edges p).offs ≡ length p.offs)
        × (length (place_all edges p).sizes ≡ length p.sizes)
  length-place_all no_child p = (refl, refl)
  length-place_all (child label node edges) p =
      let (offs, sizes) = length-place_lem node p in
      let (offs', sizes') = length-place_all edges (place node p) in (offs' ∙ offs, sizes' ∙ sizes)

pub length-place :
    (node : TrieNode) (p : Placement)
    → (length (place node p).offs ≡ length p.offs) × (length (place node p).sizes ≡ length p.sizes)
length-place node p = length-place_lem node p

-- The rounds that a subtree takes.
unfoldable mutual
  pub steps : TrieNode → ℕ
  steps (trie_node edges export i s) = 1 + steps_all edges

  pub steps_all : Children → ℕ
  steps_all no_child = 0
  steps_all (child label node edges) = 1 + (steps node + steps_all edges)

mutual
  unfolding steps node_count

  steps-node_count : (node : TrieNode) → steps node + 1 ≡ 2 * node_count node
  steps-node_count (trie_node edges export i s) = omega (arith, steps_all-node_counts edges)

  steps_all-node_counts : (edges : Children) → steps_all edges ≡ 2 * node_counts edges
  steps_all-node_counts no_child = refl
  steps_all-node_counts (child label node edges) =
      omega (arith, steps-node_count node, steps_all-node_counts edges)

pub steps-le : (node : TrieNode) → steps node ≤ 2 * node_count node
steps-le node = omega (arith, steps-node_count node)
