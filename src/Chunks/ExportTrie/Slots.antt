-- ===== src/Chunks/ExportTrie/Slots.antt =====
-- The array of number_nodes of macho/chunks/export_trie.rs: each node stands at its index.
use mathlib.Core.Path.{subst}
use mold_macho.Chunks.ExportTrie.{no_child, TrieNode, Children, trie_node, child, size_of}
use mold_macho.Chunks.ExportTrie.Number.{store, store_all, all_stored, number_nodes}
use mold_macho.Chunks.ExportTrie.Numbered.{
  AreNumbered, node_counts, IsNumbered, node_count, node_count-numbered, numbered, size_of-numbered,
  numbered-IsNumbered, fill-count,
}
use mold_macho.Chunks.ExportTrie.Shape.{IsTrie}
use mold_macho.Prelude.{
  some, ◌++◌, length, ◌≡◌, suc, set, none, ap, ◌∷◌, arith, refl, length-append, ℕ, [], ◌+◌,
  replicate, map, List, Option, sym, append-nil, ◌<◌, ◌^◌, ap₂, append_assoc, ◌∙◌,
}

unfoldable mutual
  pub preorder : TrieNode → List TrieNode
  preorder (trie_node edges export i s) = trie_node edges export i s ∷ preorder_all edges

  pub preorder_all : Children → List TrieNode
  preorder_all no_child = []
  preorder_all (child label node edges) = preorder node ++ preorder_all edges

mutual
  unfolding preorder node_count

  length-preorder_lem : (node : TrieNode) → length (preorder node) ≡ node_count node
  length-preorder_lem (trie_node edges export i s) = omega (arith, length-preorder_all edges)

  length-preorder_all : (edges : Children) → length (preorder_all edges) ≡ node_counts edges
  length-preorder_all no_child = refl
  length-preorder_all (child label node edges) = omega (
    arith,
    length-append (preorder node) (preorder_all edges),
    length-preorder_lem node,
    length-preorder_all edges,
  )

pub length-preorder : (node : TrieNode) → length (preorder node) ≡ node_count node
length-preorder node = length-preorder_lem node

-- A slot array: what is stored, then the empty slots, then what is there anyway.
abbrev slots_with : List TrieNode → ℕ → List (Option TrieNode) → List (Option TrieNode)
slots_with stored free back = map some stored ++ (replicate free none ++ back)

store_one :
    (stored : List TrieNode) (free : ℕ) (back : List (Option TrieNode)) (node : TrieNode)
    → set (slots_with stored (suc free) back) (length stored) (some node)
      ≡ slots_with (stored ++ node ∷ []) free back
store_one [] free back node = refl
store_one (x ∷ stored) free back node = ap (λ l. some x ∷ l) (store_one stored free back node)

mutual
  unfolding store preorder IsNumbered node_count

  store-slots_with :
      (stored : List TrieNode) (free : ℕ) (back : List (Option TrieNode)) (node : TrieNode)
      → IsNumbered (length stored) node
      → store node (slots_with stored (node_count node + free) back)
        ≡ slots_with (stored ++ preorder node) free back
  store-slots_with stored free back (trie_node edges export i s) (here, are) =
      let count : 1 + node_counts edges + free ≡ suc (node_counts edges + free) = omega arith in
      let me = trie_node edges export i s in
      let next : length stored + 1 ≡ length (stored ++ me ∷ []) =
        omega (arith, length-append stored (me ∷ [])) in
      let are' = subst (λ (k : ℕ). AreNumbered k edges) next are in
      ap₂ (λ n k. store_all edges (set (slots_with stored n back) k (some me))) count here
      ∙ (ap (store_all edges) (store_one stored (node_counts edges + free) back me)
          ∙ (store_all-slots_with (stored ++ me ∷ []) free back edges are'
              ∙ ap (λ l. slots_with l free back)
                  (append_assoc stored (me ∷ []) (preorder_all edges))))

  store_all-slots_with :
      (stored : List TrieNode) (free : ℕ) (back : List (Option TrieNode)) (edges : Children)
      → AreNumbered (length stored) edges
      → store_all edges (slots_with stored (node_counts edges + free) back)
        ≡ slots_with (stored ++ preorder_all edges) free back
  store_all-slots_with stored free back no_child are =
      let free' : 0 + free ≡ free = omega arith in
      ap₂ (λ l n. slots_with l n back) (sym (append-nil stored)) free'
  store_all-slots_with stored free back (child label node edges) (is_numbered, are) =
      let rest = node_counts edges + free in
      let count : node_count node + node_counts edges + free ≡ node_count node + rest =
        omega arith in
      let next : length stored + node_count node ≡ length (stored ++ preorder node) =
        omega (arith, length-append stored (preorder node), length-preorder node) in
      let are' = subst (λ (k : ℕ). AreNumbered k edges) next are in
      ap (λ n. store_all edges (store node (slots_with stored n back))) count
      ∙ (ap (store_all edges) (store-slots_with stored rest back node is_numbered)
          ∙ (store_all-slots_with (stored ++ preorder node) free back edges are'
              ∙ ap (λ l. slots_with l free back)
                  (append_assoc stored (preorder node) (preorder_all edges))))

all_stored-some : (nodes : List TrieNode) → all_stored (map some nodes ++ []) ≡ some nodes
unfolding all_stored
all_stored-some [] = refl
all_stored-some (node ∷ nodes) = rw (all_stored-some nodes) refl

-- Of a trie with fewer than 2^32 nodes, the nodes are numbered in pre-order and stored so.
pub number_nodes-preorder :
    (root : TrieNode)
    → IsTrie root
    → node_count root < 2 ^ 32
    → number_nodes root ≡ some (numbered 0 root, preorder (numbered 0 root))
unfolding number_nodes
number_nodes-preorder root is_trie h =
    let same = fill-count 0 root is_trie (omega arith) in
    let count = node_count-numbered 0 root in
    let tree = numbered 0 root in
    let size : size_of tree ≡ node_count tree = size_of-numbered 0 root in
    let none_free : node_count tree ≡ node_count tree + 0 = omega arith in
    let filled : store tree (replicate (node_count tree) none) ≡ map some (preorder tree) ++ [] =
      ap (λ (l : List (Option TrieNode)). store tree l)
        (sym (append-nil (replicate (node_count tree) none))
          ∙ ap (λ (n : ℕ). replicate n none ++ []) none_free)
      ∙ store-slots_with [] 0 [] tree (numbered-IsNumbered 0 root) in
    rw (same, size, filled, all_stored-some (preorder tree)) refl
