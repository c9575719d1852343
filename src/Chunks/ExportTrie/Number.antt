-- ===== src/Chunks/ExportTrie/Number.antt =====
-- number_nodes of macho/chunks/export_trie.rs: the edges of each node sorted by label, the nodes
-- counted and numbered in pre-order, and the array of the nodes. The passes over disjoint subtrees,
-- which the source runs in parallel, run one after another.
use mold_macho.Chunks.ExportTrie.{child, trie_node, no_child, Children, TrieNode, size_of}
use mold_macho.Prelude.{
  Ordering, set, ℕ, ◌∷◌, some, replicate, [], Option, ◌^◌, none, List, ◌%◌, ◌+◌,
}
use mold_macho.Prelude.Fallible.{◌>>=◌}
use mold_macho.Util.Names.{name_cmp}

-- The standard library's stable sort of a node's edges by their labels.
unfoldable pub insert_child : List ℕ → TrieNode → Children → Children
unfolding name_cmp
insert_child label node no_child = child label node no_child
insert_child label node (child l n edges) = elim (name_cmp label l) [
  | Ordering.gt ↦ child l n (insert_child label node edges)
  | Ordering.lt ↦ child label node (child l n edges)
  | Ordering.eq ↦ child label node (child l n edges)
]

unfoldable pub sort_children : Children → Children
unfolding insert_child
sort_children no_child = no_child
sort_children (child label node edges) = insert_child label node (sort_children edges)

unfoldable pub sum_sizes : Children → ℕ
sum_sizes no_child = 0
sum_sizes (child label node edges) = size_of node + sum_sizes edges

-- `count`: sorting an edge's subtree does not change its label, so the edges are sorted last.
unfoldable mutual
  unfolding sort_children sum_sizes

  pub count : TrieNode → TrieNode
  count (trie_node edges export i s) =
      let sorted = sort_children (count_all edges) in
      trie_node sorted export i ((1 + sum_sizes sorted) % 2 ^ 32)

  pub count_all : Children → Children
  count_all no_child = no_child
  count_all (child label node edges) = child label (count node) (count_all edges)

-- `fill`: a subtree's indices start at `base`.
unfoldable mutual
  pub fill : ℕ → TrieNode → TrieNode
  fill base (trie_node edges export i s) = trie_node (fill_all (base + 1) edges) export base s

  pub fill_all : ℕ → Children → Children
  fill_all b no_child = no_child
  fill_all b (child label node edges) =
      child label (fill b node) (fill_all ((b + size_of node) % 2 ^ 32) edges)

-- The array's slots of a subtree, each at its node's index.
unfoldable mutual
  pub store : TrieNode → List (Option TrieNode) → List (Option TrieNode)
  store (trie_node edges export i s) slots =
      store_all edges (set slots i (some (trie_node edges export i s)))

  pub store_all : Children → List (Option TrieNode) → List (Option TrieNode)
  store_all no_child slots = slots
  store_all (child label node edges) slots = store_all edges (store node slots)

-- A slot that holds no node is a null pointer, which nothing may follow.
unfoldable pub all_stored : List (Option TrieNode) → Option (List TrieNode)
all_stored [] = some []
all_stored (slot ∷ slots) = slot >>= (λ node. all_stored slots >>= (λ nodes. some (node ∷ nodes)))

-- The numbered tree, and its nodes in order.
unfoldable pub number_nodes : TrieNode → Option (TrieNode × List TrieNode)
unfolding count fill store all_stored
number_nodes root =
    let numbered = fill 0 (count root) in
    all_stored (store numbered (replicate (size_of numbered) none))
    >>= (λ nodes. some (numbered, nodes))
