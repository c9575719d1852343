-- ===== src/Chunks/ExportTrie/ReadBack.antt =====
-- The export trie of macho/chunks/export_trie.rs reads back: a loader's walk finds each export by its
-- name, and no other name.
use mold_macho.Chunks.ExportTrie.{
  trie_node, Children, child, Export, TrieNode, no_child, longest, build_trie, Entry,
}
use mold_macho.Chunks.ExportTrie.Build.{build_trie-find}
use mold_macho.Chunks.ExportTrie.Descent.{read-edges, follow}
use mold_macho.Chunks.ExportTrie.Layout.{LaidAll, room_all, room, postorder_all}
use mold_macho.Chunks.ExportTrie.Lookup.{find, find_below, lookup}
use mold_macho.Chunks.ExportTrie.Number.{count, number_nodes}
use mold_macho.Chunks.ExportTrie.Numbered.{
  IsNumbered, node_counts, numbered_all, node_count, numbered, find-numbered, numbered-IsNumbered,
  numbered-IsTrie,
}
use mold_macho.Chunks.ExportTrie.Order.{IsSorted}
use mold_macho.Chunks.ExportTrie.Placing.{
  Placement, labels_size, export_size, kid_indices, fixed_size, place_nodes,
}
use mold_macho.Chunks.ExportTrie.ReadNode.{read_trie-below, read_trie-here}
use mold_macho.Chunks.ExportTrie.Reader.{read_trie, find_edge, read_edges, read_terminal}
use mold_macho.Chunks.ExportTrie.Rooms.{LaidAll-edge_total, LaidAll-le, place_all-LaidAll}
use mold_macho.Chunks.ExportTrie.Shape.{IsTrie, IsEntry}
use mold_macho.Chunks.ExportTrie.Slices.{
  all_bytes, length-node_bytes, LaidAll-HaveOffs, write-all_bytes, write_slice,
}
use mold_macho.Chunks.ExportTrie.Slots.{preorder, number_nodes-preorder}
use mold_macho.Chunks.ExportTrie.Tops.{root_placed, place_nodes-preorder}
use mold_macho.Chunks.ExportTrie.Walk.{
  place_all, Stands, preorder-Stands, edge_total, StandAll, node_size,
}
use mold_macho.Chunks.ExportTrie.Write.{
  write_nodes, count_edges, write_node, write_slices, encode_export_trie,
}
use mold_macho.Chunks.ExportTrie.WriteNode.{write_node-node_bytes}
use mold_macho.Chunks.ExportTrie.Written.{zeros, node_bytes, edges_bytes, length-zeros}
use mold_macho.Prelude.{
  ap, ◌%◌, arith, ◌+◌, ◌++◌, ◌<◌, suc, ap₂, ◌∙◌, [], Option, some, ◌≡◌, ◌^◌, refl, ℕ, ◌*◌, length,
  ◌≤◌, replicate, inl, List, length-set, append-nil, drop, sym, length-append, append_assoc, ◌-◌,
  get_elem?, ◌∷◌, length-replicate, get_elem?-set_self, zero, false, none,
}
use mold_macho.Prelude.Bytes.{pad_to, All}
use mold_macho.Prelude.Fallible.{◌>>=◌}
use mold_macho.Prelude.Slices.{drop_all}
use mold_macho.Util.Leb.{uleb_size, read_uleb}
use native.Mathlib.Nat.{mod-eq_of_lt}

length-kid_indices : (edges : Children) → length (kid_indices edges) ≡ count_edges edges
unfolding kid_indices count_edges
length-kid_indices no_child = refl
length-kid_indices (child label node edges) = ap suc (length-kid_indices edges)

mutual
  unfolding room node_count fixed_size

  node_count-le_lem : (node : TrieNode) → node_count node ≤ room node
  node_count-le_lem (trie_node edges export i s) = omega (arith, node_counts-le edges)

  node_counts-le : (edges : Children) → node_counts edges ≤ room_all edges
  node_counts-le no_child = omega arith
  node_counts-le (child label node edges) =
      omega (arith, node_count-le_lem node, node_counts-le edges)

node_count-le : (node : TrieNode) → node_count node ≤ room node
node_count-le node = node_count-le_lem node

mutual
  unfolding room numbered fixed_size labels_size count_edges

  room-numbered_lem : (base : ℕ) (node : TrieNode) → room (numbered base node) ≡ room node
  room-numbered_lem base (trie_node edges export i s) =
      let (labels, count, below) = edges-numbered (base + 1) edges in
      ap₂ ◌+◌
        (ap₂ (λ (l c : ℕ). uleb_size (export_size export) + export_size export + 1 + l + 5 * c)
          labels count)
        below

  edges-numbered :
      (b : ℕ) (edges : Children)
      → (labels_size (numbered_all b edges) ≡ labels_size edges)
        × (count_edges (numbered_all b edges) ≡ count_edges edges)
        × (room_all (numbered_all b edges) ≡ room_all edges)
  edges-numbered b no_child = (refl, refl, refl)
  edges-numbered b (child label node edges) =
      let (labels, count, below) = edges-numbered (b + node_count node) edges in
      (
        ap (λ (l : ℕ). length label + 1 + l) labels,
        ap suc count,
        ap₂ ◌+◌ (room-numbered_lem b node) below,
      )

room-numbered : (base : ℕ) (node : TrieNode) → room (numbered base node) ≡ room node
room-numbered base node = room-numbered_lem base node

stands_here :
    (edges : Children) (export : Option Export) (s : ℕ)
    → let root = trie_node edges export 0 s in
      IsNumbered 0 root → (get_elem? (preorder root) 0 ≡ some root) × StandAll (preorder root) edges
unfolding Stands
stands_here edges export s h = preorder-Stands (trie_node edges export 0 s) h

-- The root, placed and written first with the room for its child offsets, then its subtrees.
root_written :
    (edges : Children) (export : Option Export) (s : ℕ)
    → let root = trie_node edges export 0 s in
      IsTrie root
      → IsNumbered 0 root
      → room root < 2 ^ 32
      → (placement : Placement) × (size : ℕ) × (k : ℕ) × (place_nodes (preorder root)
          ≡ some placement)
        × LaidAll placement.offs placement.sizes size edges placement.total
        × (placement.total < 2 ^ 32)
        × (size ≡ length (node_bytes placement.offs root) + k)
        × (write_nodes (preorder root) placement
            ≡ some (
                (node_bytes placement.offs root ++ zeros k)
                ++ (all_bytes placement.offs edges ++ [])))
unfolding write_nodes IsTrie room IsNumbered root_placed node_count
root_written edges export s is_trie is_numbered h =
    let root = trie_node edges export 0 s in
    let p0 = root_placed (node_count root) root in
    let placement = place_all edges p0 in
    let f = fixed_size root in
    let size = (f + 5 * length (kid_indices edges)) % 2 ^ 32 in
    let exact : size ≡ f + 5 * count_edges edges =
      ap (λ (n : ℕ). (f + 5 * n) % 2 ^ 32) (length-kid_indices edges)
      ∙ mod-eq_of_lt (omega arith) in
    let few_nodes = node_count-le root in
    let lo : length p0.offs ≡ node_count root = length-replicate (node_count root) zero in
    let ls : length p0.sizes ≡ node_count root =
      length-set (replicate (node_count root) 0) 0 size ∙ length-replicate (node_count root) zero in
    let (extends, laid) =
      place_all-LaidAll 1 edges p0 is_numbered.1
        (omega (arith, lo), omega (arith, ls), omega (arith, exact)) in
    let offs = placement.offs in
    let sizes = placement.sizes in
    let nodes = preorder root in
    let below : placement.total < 2 ^ 32 = omega (arith, exact, extends.2) in
    let have = LaidAll-HaveOffs offs sizes size edges placement.total laid below in
    let few = LaidAll-edge_total offs sizes size edges placement.total laid below in
    let bytes = node_bytes offs root in
    let len = length-node_bytes edges export 0 s offs is_trie have in
    let sum : node_size offs root ≡ f + edge_total offs edges = unfold node_size in refl in
    let k = size - length bytes in
    let split : size ≡ length bytes + k = omega (arith, exact) in
    let sized : get_elem? sizes 0 ≡ some size =
      (extends.0 0 (inl (omega arith))).1
      ∙ get_elem?-set_self (replicate (node_count root) 0) 0 size (omega (arith, ls)) in
    let (at, stands) = stands_here edges export s is_numbered in
    let wrote : write_node root offs (zeros size) ≡ some (bytes ++ zeros k) =
      ap (λ (n : ℕ). write_node root offs (zeros n)) split
      ∙ write_node-node_bytes edges export 0 s offs k is_trie have in
    let rest =
      (write-all_bytes nodes placement edges size placement.total [] 0 [] laid below is_trie.1
        stands (unfold write_slices in refl)).0 in
    let le = LaidAll-le offs sizes size edges placement.total laid in
    let left = placement.total - size + 0 in
    let count : placement.total ≡ size + left = omega arith in
    let whole =
      write_slice nodes placement 0 (postorder_all edges ++ []) size left root (bytes ++ zeros k)
        (all_bytes offs edges ++ []) sized at wrote rest in
    let order : placement.order ≡ 0 ∷ (postorder_all edges ++ []) =
      extends.1 ∙ ap (λ l. 0 ∷ l) (sym (append-nil (postorder_all edges))) in
    (
      placement,
      size,
      k,
      place_nodes-preorder edges export s is_numbered,
      laid,
      below,
      split,
      ap₂ (λ o n. write_slices nodes placement o n) order count ∙ whole,
    )

read_root :
    (edges : Children) (export : Option Export) (s : ℕ) (placement : Placement) (buf tail : List ℕ)
    → let root = trie_node edges export 0 s in
      IsTrie root
      → buf ≡ node_bytes placement.offs root ++ tail
      → ((fuel b : ℕ) (name : List ℕ)
          → length (b ∷ name) < suc fuel
          → (find_edge (count_edges edges) (edges_bytes placement.offs edges ++ tail) (b ∷ name)
              >>= follow fuel buf)
            ≡ some (find_below edges (b ∷ name)))
      → (name : List ℕ) → read_trie (suc (length name)) buf 0 name ≡ some (find root name)
unfolding find
read_root edges export s placement buf tail is_trie here below [] =
    read_trie-here edges export 0 s placement.offs buf tail 0 is_trie here 0
read_root edges export s placement buf tail is_trie here below (b ∷ name) =
    read_trie-below edges export 0 s placement.offs buf tail 0 is_trie here (length (b ∷ name)) b
      name
    ∙ below (length (b ∷ name)) b name (omega arith)

-- A numbered trie's bytes, padded, read back.
numbered_read :
    (edges : Children) (export : Option Export) (s : ℕ)
    → let root = trie_node edges export 0 s in
      IsTrie root
      → IsNumbered 0 root
      → room root < 2 ^ 32
      → (placement : Placement) × (buf : List ℕ) × (place_nodes (preorder root) ≡ some placement)
        × (write_nodes (preorder root) placement ≡ some buf)
        × ((name : List ℕ)
            → read_trie (suc (length name)) (pad_to 8 buf) 0 name ≡ some (find root name))
unfolding IsTrie pad_to
numbered_read edges export s is_trie is_numbered h =
    let root = trie_node edges export 0 s in
    let (placement, size, k, placed, laid, below, split, wrote) =
      root_written edges export s is_trie is_numbered h in
    let (at, stands) = stands_here edges export s is_numbered in
    let offs = placement.offs in
    let bytes = node_bytes offs root in
    let all = all_bytes offs edges in
    let buf = (bytes ++ zeros k) ++ (all ++ []) in
    let pad = zeros ((8 - length buf % 8) % 8) in
    let padded = buf ++ pad in
    let later = (all ++ []) ++ pad in
    let front : padded ≡ bytes ++ (zeros k ++ later) =
      append_assoc (bytes ++ zeros k) (all ++ []) pad ∙ append_assoc bytes (zeros k) later in
    let root_size : size ≡ length (bytes ++ zeros k) =
      omega (arith, length-append bytes (zeros k), length-zeros k) in
    let below_root : drop size padded ≡ all ++ pad =
      ap (drop size) (append_assoc (bytes ++ zeros k) (all ++ []) pad)
      ∙ drop_all size (bytes ++ zeros k) later root_size
      ∙ ap (λ l. l ++ pad) (append-nil all) in
    (
      placement,
      buf,
      placed,
      wrote,
      read_root edges export s placement padded (zeros k ++ later) is_trie front
          (λ fuel b name short.
            read-edges (preorder root) placement padded edges size placement.total fuel b name pad
              (zeros k ++ later) laid below is_trie.1 stands below_root short),
    )

-- A trie that is numbered, placed, written and padded.
encoded :
    (root : TrieNode)
    → IsTrie root
    → room root < 2 ^ 32
    → (placement : Placement) × (buf : List ℕ) × (number_nodes root
        ≡ some (numbered 0 root, preorder (numbered 0 root)))
      × (place_nodes (preorder (numbered 0 root)) ≡ some placement)
      × (write_nodes (preorder (numbered 0 root)) placement ≡ some buf)
      × ((name : List ℕ)
          → read_trie (suc (length name)) (pad_to 8 buf) 0 name ≡ some (find root name))
unfolding numbered
encoded (trie_node edges export i s) is_trie h =
    let root = trie_node edges export i s in
    let tree = numbered 0 root in
    let count = node_count-le root in
    let (placement, buf, placed, wrote, reads) =
      numbered_read (numbered_all (0 + 1) edges) export (1 + node_counts edges)
        (numbered-IsTrie 0 root is_trie) (numbered-IsNumbered 0 root)
        (omega (arith, room-numbered 0 root)) in
    (
      placement,
      buf,
      number_nodes-preorder root is_trie (omega arith),
      placed,
      wrote,
      λ name. reads name ∙ ap some (find-numbered 0 root name),
    )

read_empty : (name : List ℕ) → read_trie (suc (length name)) (zeros 8) 0 name ≡ some none
unfolding read_trie read_uleb read_terminal read_edges find_edge
read_empty [] = refl
read_empty (b ∷ name) = refl

-- For an image that a loader reads, with exports in strictly increasing order of their names, which
-- have no zero byte, and fewer than 4 GB of trie nodes where each child offset takes five bytes: the
-- trie is written, and a loader's walk over its bytes, started at offset 0, gives for every byte
-- string just what the list of the exports has for it, an export that stands under that name or
-- none. As many rounds as the name has bytes, and one, are enough for the walk.
pub encode_export_trie-lookup :
    (names : List Entry)
    → IsSorted names
    → All IsEntry names
    → ((root : TrieNode)
        → build_trie (suc (longest names)) names 0 ≡ some root
        → room root < 2 ^ 32)
    → (trie : List ℕ) × (encode_export_trie false names ≡ some trie)
      × ((name : List ℕ) → read_trie (suc (length name)) trie 0 name ≡ some (lookup name names))
unfolding encode_export_trie lookup
encode_export_trie-lookup [] sorted entries fits = (zeros 8, refl, read_empty)
encode_export_trie-lookup (e ∷ names) sorted entries fits =
    let (root, built, finds, is_trie) = build_trie-find (e ∷ names) sorted entries in
    let (placement, buf, numbers, placed, wrote, reads) = encoded root is_trie (fits root built) in
    (
      pad_to 8 buf,
      rw (built, numbers, placed, wrote) refl,
      λ name. reads name ∙ ap some (finds name),
    )
