-- ===== src/Chunks/ExportTrie/Numbered.antt =====
-- What number_nodes of macho/chunks/export_trie.rs makes of a trie: the same edges, in place, with
-- the nodes numbered in pre-order.
use mold_macho.Chunks.ExportTrie.{TrieNode, size_of, no_child, child, trie_node, Children, Export}
use mold_macho.Chunks.ExportTrie.Lookup.{find_below, strip_label, find}
use mold_macho.Chunks.ExportTrie.Number.{
  count, fill_all, fill, sum_sizes, sort_children, count_all, insert_child,
}
use mold_macho.Chunks.ExportTrie.Shape.{IsTrie, AreEdges, Above, StartsWith}
use mold_macho.Prelude.{
  List, ◌<◌, refl, ◌≡◌, Ordering, compare, arith, ◌^◌, ℕ, ◌+◌, ◌%◌, ap, ◌∙◌, ap₂, [], ◌∷◌, some,
  none, Option, sym,
}
use mold_macho.Util.Names.{name_cmp}
use native.Mathlib.Nat.{mod-eq_of_lt}

unfoldable mutual
  pub node_count : TrieNode → ℕ
  node_count (trie_node edges export i s) = 1 + node_counts edges

  pub node_counts : Children → ℕ
  node_counts no_child = 0
  node_counts (child label node edges) = node_count node + node_counts edges

-- The tree numbered from `base` on, with the exact size of each subtree.
unfoldable mutual
  unfolding node_count

  pub numbered : ℕ → TrieNode → TrieNode
  numbered base (trie_node edges export i s) =
      trie_node (numbered_all (base + 1) edges) export base (1 + node_counts edges)

  pub numbered_all : ℕ → Children → Children
  numbered_all b no_child = no_child
  numbered_all b (child label node edges) =
      child label (numbered b node) (numbered_all (b + node_count node) edges)

Above-count : (b : ℕ) (edges : Children) → Above b edges → Above b (count_all edges)
unfolding Above count
Above-count b no_child h = tt
Above-count b (child label node edges) (h, hs) = (h, Above-count b edges hs)

-- An edge that stands in its place stays there.
insert_child-first :
    (b : ℕ) (label : List ℕ) (node : TrieNode) (edges : Children)
    → StartsWith b label
    → Above b edges
    → insert_child label node edges ≡ child label node edges
unfolding insert_child Above name_cmp
insert_child-first b label node no_child starts h = refl
insert_child-first b label node (child l n edges) (s, e) ((x, lt, (t, e')), h) =
    let less : compare b x ≡ Ordering.lt = ground arith in
    rw (e, e', insert_child, name_cmp, less) (ap₂ (λ p q. child p node (child q n edges)) e e')

sort_children-count :
    (edges : Children) → AreEdges edges → sort_children (count_all edges) ≡ count_all edges
unfolding sort_children count IsTrie
sort_children-count no_child h = refl
sort_children-count (child label node edges) ((b, starts, above), bytes, is_trie, are) =
    rw (sort_children-count edges are)
      (insert_child-first b label (count node) (count_all edges) starts (Above-count b edges above))

mutual
  unfolding count IsTrie node_count sum_sizes

  size-count :
      (node : TrieNode)
      → IsTrie node
      → node_count node < 2 ^ 32
      → size_of (count node) ≡ node_count node
  size-count (trie_node edges export i s) (terminal, are) h =
      rw (sort_children-count edges are, sizes-count edges are (omega arith))
        (mod-eq_of_lt (omega arith))

  sizes-count :
      (edges : Children)
      → AreEdges edges
      → node_counts edges < 2 ^ 32
      → sum_sizes (count_all edges) ≡ node_counts edges
  sizes-count no_child are h = refl
  sizes-count (child label node edges) (label-ok, bytes, is_trie, are) h =
      omega (arith, size-count node is_trie (omega arith), sizes-count edges are (omega arith))

mutual
  unfolding fill count IsTrie node_count numbered sum_sizes

  pub fill-count :
      (base : ℕ) (node : TrieNode)
      → IsTrie node
      → base + node_count node < 2 ^ 32
      → fill base (count node) ≡ numbered base node
  fill-count base (trie_node edges export i s) (terminal, are) h =
      rw
        (
          sort_children-count edges are,
          sizes-count edges are (omega arith),
          fill_all-count (base + 1) edges are (omega arith),
        )
        (ap (trie_node (numbered_all (base + 1) edges) export base) (mod-eq_of_lt (omega arith)))

  fill_all-count :
      (b : ℕ) (edges : Children)
      → AreEdges edges
      → b + node_counts edges < 2 ^ 32
      → fill_all b (count_all edges) ≡ numbered_all b edges
  fill_all-count b no_child are h = refl
  fill_all-count b (child label node edges) (label-ok, bytes, is_trie, are) h =
      let next : (b + size_of (count node)) % 2 ^ 32 ≡ b + node_count node =
        ap (λ (k : ℕ). (b + k) % 2 ^ 32) (size-count node is_trie (omega arith))
        ∙ mod-eq_of_lt (omega arith) in
      rw next (
        ap₂ (child label) (fill-count b node is_trie (omega arith))
          (fill_all-count (b + node_count node) edges are (omega arith)))

taken_or_passed :
    (b : ℕ) (label : List ℕ) (node : TrieNode) (edges : Children) (name : List ℕ)
    (stripped : Option (List ℕ))
    → ((rest : List ℕ) → find (numbered b node) rest ≡ find node rest)
    → find_below (numbered_all (b + node_count node) edges) name ≡ find_below edges name
    → elim stripped as (λ o. Option Export) [
      | some rest ↦ find (numbered b node) rest
      | none ↦ find_below (numbered_all (b + node_count node) edges) name
    ]
      ≡ elim stripped as (λ o. Option Export) [
        | some rest ↦ find node rest
        | none ↦ find_below edges name
      ]
taken_or_passed b label node edges name (some rest) h k = h rest
taken_or_passed b label node edges name none h k = k

Above-numbered : (x b : ℕ) (edges : Children) → Above x edges → Above x (numbered_all b edges)
unfolding Above numbered
Above-numbered x b no_child h = tt
Above-numbered x b (child label node edges) (h, hs) =
    (h, Above-numbered x (b + node_count node) edges hs)

mutual
  unfolding find numbered

  find-numbered_lem :
      (base : ℕ) (node : TrieNode) (name : List ℕ) → find (numbered base node) name ≡ find node name
  find-numbered_lem base (trie_node edges export i s) [] = refl
  find-numbered_lem base (trie_node edges export i s) (b ∷ name) =
      find_below-numbered (base + 1) edges (b ∷ name)

  find_below-numbered :
      (b : ℕ) (edges : Children) (name : List ℕ)
      → find_below (numbered_all b edges) name ≡ find_below edges name
  find_below-numbered b no_child name = refl
  find_below-numbered b (child label node edges) name =
      taken_or_passed b label node edges name (strip_label label name)
        (λ rest. find-numbered_lem b node rest)
        (find_below-numbered (b + node_count node) edges name)

mutual
  unfolding IsTrie Above numbered

  pub numbered-IsTrie : (base : ℕ) (node : TrieNode) → IsTrie node → IsTrie (numbered base node)
  numbered-IsTrie base (trie_node edges export i s) (terminal, are) =
      (terminal, numbered_all-AreEdges (base + 1) edges are)

  numbered_all-AreEdges :
      (b : ℕ) (edges : Children) → AreEdges edges → AreEdges (numbered_all b edges)
  numbered_all-AreEdges b no_child are = tt
  numbered_all-AreEdges b (child label node edges) ((x, starts, above), bytes, is_trie, are) = (
    (x, starts, Above-numbered x (b + node_count node) edges above),
    bytes,
    numbered-IsTrie b node is_trie,
    numbered_all-AreEdges (b + node_count node) edges are,
  )

pub find-numbered :
    (base : ℕ) (node : TrieNode) (name : List ℕ) → find (numbered base node) name ≡ find node name
find-numbered base node name = find-numbered_lem base node name

mutual
  unfolding node_count numbered

  node_count-numbered_lem :
      (base : ℕ) (node : TrieNode) → node_count (numbered base node) ≡ node_count node
  node_count-numbered_lem base (trie_node edges export i s) =
      ap (λ (k : ℕ). 1 + k) (node_counts-numbered (base + 1) edges)

  node_counts-numbered :
      (b : ℕ) (edges : Children) → node_counts (numbered_all b edges) ≡ node_counts edges
  node_counts-numbered b no_child = refl
  node_counts-numbered b (child label node edges) =
      ap₂ ◌+◌ (node_count-numbered_lem b node) (node_counts-numbered (b + node_count node) edges)

pub node_count-numbered :
    (base : ℕ) (node : TrieNode) → node_count (numbered base node) ≡ node_count node
node_count-numbered base node = node_count-numbered_lem base node

-- The indices of a subtree are those from `base` on, in pre-order.
unfoldable mutual
  unfolding node_count

  pub IsNumbered : ℕ → TrieNode → Type 0
  IsNumbered base (trie_node edges export i s) = (i ≡ base) × AreNumbered (base + 1) edges

  pub AreNumbered : ℕ → Children → Type 0
  AreNumbered b no_child = Unit
  AreNumbered b (child label node edges) =
      IsNumbered b node × AreNumbered (b + node_count node) edges

mutual
  unfolding IsNumbered numbered node_count

  numbered-IsNumbered_lem : (base : ℕ) (node : TrieNode) → IsNumbered base (numbered base node)
  numbered-IsNumbered_lem base (trie_node edges export i s) =
      (refl, numbered_all-AreNumbered (base + 1) edges)

  numbered_all-AreNumbered : (b : ℕ) (edges : Children) → AreNumbered b (numbered_all b edges)
  numbered_all-AreNumbered b no_child = tt
  numbered_all-AreNumbered b (child label node edges) =
      let e = node_count-numbered b node in
      (numbered-IsNumbered_lem b node, rw e (numbered_all-AreNumbered (b + node_count node) edges))

pub numbered-IsNumbered : (base : ℕ) (node : TrieNode) → IsNumbered base (numbered base node)
numbered-IsNumbered base node = numbered-IsNumbered_lem base node

pub size_of-numbered :
    (base : ℕ) (node : TrieNode) → size_of (numbered base node) ≡ node_count (numbered base node)
unfolding numbered node_count
size_of-numbered base (trie_node edges export i s) =
    ap (λ (k : ℕ). 1 + k) (sym (node_counts-numbered (base + 1) edges))
