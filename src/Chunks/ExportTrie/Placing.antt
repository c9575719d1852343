-- ===== src/Chunks/ExportTrie/Placing.antt =====
-- place_nodes of macho/chunks/export_trie.rs: the offset and the size of each node, the root first,
-- the others after their subtrees.
use mold_macho.Chunks.ExportTrie.{
  Export, Children, index_of, TrieNode, trie_node, children_of, child, no_child, terminal_size,
}
use mold_macho.Prelude.{
  List, ◌*◌, [], ◌%◌, length, ◌^◌, get_elem?, ◌∷◌, ◌++◌, replicate, some, Option, ◌+◌, ℕ, set, none,
  suc, map, zero,
}
use mold_macho.Prelude.Fallible.{◌>>=◌}
use mold_macho.Util.Leb.{uleb_size}

unfoldable pub labels_size : Children → ℕ
labels_size no_child = 0
labels_size (child label node edges) = length label + 1 + labels_size edges

abbrev pub export_size : Option Export → ℕ
export_size none = 0
export_size (some e) = terminal_size e

-- A node's size apart from its child offsets, and its children's indices.
unfoldable pub fixed_size : TrieNode → ℕ
unfolding labels_size terminal_size
fixed_size (trie_node edges export i s) =
    uleb_size (export_size export) + export_size export + 1 + labels_size edges

unfoldable pub kid_indices : Children → List ℕ
kid_indices no_child = []
kid_indices (child label node edges) = index_of node ∷ kid_indices edges

-- The arrays as far as they are filled in, and the offset of the next node.
pub record Placement : Type 0 where
  pub offs : List ℕ
  pub sizes : List ℕ
  pub order : List ℕ
  pub total : ℕ

-- The sizes of the offsets of a node's children; `none` is the panic of an index out of range.
unfoldable pub edge_sizes : List ℕ → List ℕ → Option ℕ
edge_sizes offs [] = some 0
edge_sizes offs (c ∷ kids) =
    get_elem? offs c >>= (λ off. edge_sizes offs kids >>= (λ n. some (uleb_size off + n)))

-- The node on top of the stack, once its children are placed. Offsets and sizes are u32.
unfoldable pub place_node : List ℕ → List ℕ → ℕ → Placement → Option Placement
unfolding edge_sizes
place_node fixed kids node p = edge_sizes p.offs kids >>= (λ edges. get_elem? fixed node >>= (λ f.
    let size = (f + edges) % 2 ^ 32 in
    some (record {
      offs = set p.offs node p.total;
      sizes = set p.sizes node size;
      order = p.order ++ node ∷ [];
      total = (p.total + size) % 2 ^ 32;
    })))

-- `kids[node].get(next)`, with the row itself.
unfoldable pub next_kid : List (List ℕ) → ℕ → ℕ → Option (List ℕ × Option ℕ)
next_kid kids node next = get_elem? kids node >>= (λ ks. some (ks, get_elem? ks next))

-- The walk with a stack of nodes and their next children. A node takes a round for each child and
-- one for itself, and is a child once, so twice as many rounds as there are nodes are enough.
unfoldable pub place_loop : ℕ → List ℕ → List (List ℕ) → List (ℕ × ℕ) → Placement → Option Placement
unfolding place_node next_kid
place_loop fuel fixed kids [] p = some p
place_loop zero fixed kids ((node, next) ∷ stack) p = none
place_loop (suc fuel) fixed kids ((node, next) ∷ stack) p =
    next_kid kids node next >>= (λ (ks, kid). elim kid [
      | some c ↦ place_loop fuel fixed kids ((c, 0) ∷ (node, next + 1) ∷ stack) p
      | none ↦ place_node fixed ks node p >>= (λ p'. place_loop fuel fixed kids stack p')
    ])

unfoldable pub place_tops : ℕ → List ℕ → List (List ℕ) → List ℕ → Placement → Option Placement
unfolding place_loop
place_tops fuel fixed kids [] p = some p
place_tops fuel fixed kids (top ∷ tops) p =
    place_loop fuel fixed kids ((top, 0) ∷ []) p >>= (λ p'. place_tops fuel fixed kids tops p')

-- The root has room for child offsets of five bytes.
unfoldable pub place_nodes : List TrieNode → Option Placement
unfolding place_tops fixed_size kid_indices
place_nodes nodes =
    let fixed = map fixed_size nodes in
    let kids = map (λ n. kid_indices (children_of n)) nodes in
    get_elem? fixed 0 >>= (λ f. get_elem? kids 0 >>= (λ tops.
      let size = (f + 5 * length tops) % 2 ^ 32 in
      place_tops (2 * length nodes) fixed kids tops (record {
        offs = replicate (length nodes) 0;
        sizes = set (replicate (length nodes) 0) 0 size;
        order = 0 ∷ [];
        total = size;
      })))
