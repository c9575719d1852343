-- ===== src/Chunks/ExportTrie/Slices.antt =====
-- write_nodes of macho/chunks/export_trie.rs writes the nodes of a subtree where they are placed.
use mold_macho.Chunks.ExportTrie.{
  addr, index_of, terminal_size, Export, no_child, reexport, Children, child, TrieNode, trie_node,
}
use mold_macho.Chunks.ExportTrie.Layout.{LaidAll, postorder, LaidOut, room, postorder_all}
use mold_macho.Chunks.ExportTrie.Placing.{fixed_size, Placement, labels_size, export_size}
use mold_macho.Chunks.ExportTrie.Rooms.{LaidAll-le, LaidOut-le}
use mold_macho.Chunks.ExportTrie.Shape.{IsTrie, AreEdges, IsTerminal}
use mold_macho.Chunks.ExportTrie.Walk.{off_of, edge_total, StandAll, Stands, node_size}
use mold_macho.Chunks.ExportTrie.Write.{write_slices, write_node, count_edges}
use mold_macho.Chunks.ExportTrie.WriteNode.{
  length-uleb, write_node-node_bytes, terminal_size-lt, off_of-some,
}
use mold_macho.Chunks.ExportTrie.Written.{
  HaveOffs, node_bytes, zeros, terminal_bytes, payload, uleb, edges_bytes,
}
use mold_macho.Prelude.{
  some, leb, length-append, true, get_elem?, sym, none, ◌∙◌, Option, ◌+◌, ap₂, ap, append-nil,
  append_assoc, length, [], ◌^◌, List, ◌-◌, ◌<◌, ◌≡◌, ◌∷◌, refl, ℕ, arith, ◌++◌,
}
use mold_macho.Util.Leb.{uleb_size}
use mold_macho.Util.Leb.Encoding.{groups, uleb_size-groups}

pub length-terminal_bytes :
    (export : Option Export)
    → IsTerminal export
    → length (terminal_bytes export) ≡ uleb_size (export_size export) + export_size export
unfolding terminal_bytes payload terminal_size
length-terminal_bytes none h =
    let one : uleb_size 0 ≡ 1 = uleb_size-groups 0 0 (omega arith) ∙ (unfold groups in refl) in
    omega arith
length-terminal_bytes (some (addr flags a)) (hf, ha, plain) =
    let t = terminal_size (addr flags a) in
    omega (
      arith,
      length-append (uleb t) (uleb flags ++ uleb a),
      length-append (uleb flags) (uleb a),
      length-uleb t (terminal_size-lt (addr flags a) (hf, ha, plain)),
      length-uleb flags (omega arith),
      length-uleb a ha,
    )
length-terminal_bytes (some (reexport ordinal name)) (ho, hn, bytes) =
    let t = terminal_size (reexport ordinal name) in
    omega (
      arith,
      length-append (uleb t) (uleb 0x08 ++ (uleb ordinal ++ (name ++ 0 ∷ []))),
      length-append (uleb 0x08) (uleb ordinal ++ (name ++ 0 ∷ [])),
      length-append (uleb ordinal) (name ++ 0 ∷ []),
      length-append name (0 ∷ []),
      length-uleb t (terminal_size-lt (reexport ordinal name) (ho, hn, bytes)),
      length-uleb 0x08 (omega arith),
      length-uleb ordinal (omega arith),
    )

length-edges_bytes :
    (offs : List ℕ) (edges : Children)
    → HaveOffs offs edges
    → length (edges_bytes offs edges) ≡ labels_size edges + edge_total offs edges
unfolding edges_bytes labels_size edge_total HaveOffs
length-edges_bytes offs no_child h = refl
length-edges_bytes offs (child label node edges) ((off, at, small), h) =
    let here = off_of-some offs (index_of node) off at in
    let bytes = uleb (off_of offs (index_of node)) in
    let few : off_of offs (index_of node) < 2 ^ 64 = omega arith in
    omega (
      arith,
      length-append label (0 ∷ (bytes ++ edges_bytes offs edges)),
      length-append bytes (edges_bytes offs edges),
      length-uleb (off_of offs (index_of node)) few,
      length-edges_bytes offs edges h,
    )

pub length-node_bytes :
    (edges : Children) (export : Option Export) (i s : ℕ) (offs : List ℕ)
    → let node = trie_node edges export i s in
      IsTrie node → HaveOffs offs edges → length (node_bytes offs node) ≡ node_size offs node
unfolding node_bytes node_size fixed_size IsTrie
length-node_bytes edges export i s offs (terminal, are) have = omega (
  arith,
  length-append (terminal_bytes export) (count_edges edges ∷ edges_bytes offs edges),
  length-terminal_bytes export terminal,
  length-edges_bytes offs edges have,
)

-- The children of a node that is laid out below 4 GB have their offsets.
pub LaidAll-HaveOffs :
    (offs sizes : List ℕ) (p : ℕ) (edges : Children) (e : ℕ)
    → LaidAll offs sizes p edges e
    → e < 2 ^ 32
    → HaveOffs offs edges
unfolding LaidOut HaveOffs
LaidAll-HaveOffs offs sizes p no_child e laid h = tt
LaidAll-HaveOffs offs sizes p (child label (trie_node es ex i s) edges) e
      (m, (q, below, off, size, end), rest) h =
    let le = LaidAll-le offs sizes m edges e rest in
    ((q, off, omega arith), LaidAll-HaveOffs offs sizes m edges e rest h)

whole_node :
    (edges : Children) (export : Option Export) (i s : ℕ) (offs : List ℕ) (n : ℕ)
    → let node = trie_node edges export i s in
      IsTrie node
      → HaveOffs offs edges
      → n ≡ length (node_bytes offs node)
      → write_node node offs (zeros n) ≡ some (node_bytes offs node)
whole_node edges export i s offs n is_trie have e =
    let node = trie_node edges export i s in
    let bytes = node_bytes offs node in
    let none_left : n ≡ length bytes + 0 = omega arith in
    ap (λ (k : ℕ). write_node node offs (zeros k)) none_left
    ∙ (write_node-node_bytes edges export i s offs 0 is_trie have ∙ ap some (append-nil bytes))

-- A subtree's bytes.
unfoldable mutual
  pub tree_bytes : List ℕ → TrieNode → List ℕ
  tree_bytes offs (trie_node edges export i s) =
      all_bytes offs edges ++ node_bytes offs (trie_node edges export i s)

  pub all_bytes : List ℕ → Children → List ℕ
  all_bytes offs no_child = []
  all_bytes offs (child label node edges) = tree_bytes offs node ++ all_bytes offs edges

-- One slice.
pub write_slice :
    (nodes : List TrieNode) (placement : Placement) (i : ℕ) (order : List ℕ) (size room : ℕ)
    (node : TrieNode) (bytes more : List ℕ)
    → get_elem? placement.sizes i ≡ some size
    → get_elem? nodes i ≡ some node
    → write_node node placement.offs (zeros size) ≡ some bytes
    → write_slices nodes placement order room ≡ some more
    → write_slices nodes placement (i ∷ order) (size + room) ≡ some (bytes ++ more)
unfolding write_slices
write_slice nodes placement i order size room node bytes more sized at wrote rest =
    let fits : leb size (size + room) ≡ true = ground arith in
    let left : size + room - size ≡ room = omega arith in
    rw (sized, at, fits, wrote, left, rest) refl

module _ (nodes : List TrieNode) (placement : Placement) where
  abbrev offs : List ℕ
  offs = placement.offs

  abbrev sizes : List ℕ
  sizes = placement.sizes

  mutual
    unfolding LaidOut tree_bytes IsTrie Stands postorder

    pub write-tree_bytes_lem :
        (node : TrieNode) (p e : ℕ) (order : List ℕ) (room : ℕ) (more : List ℕ)
        → LaidOut offs sizes p node e
        → e < 2 ^ 32
        → IsTrie node
        → Stands nodes node
        → write_slices nodes placement order room ≡ some more
        → (write_slices nodes placement (postorder node ++ order) (e - p + room)
            ≡ some (tree_bytes offs node ++ more))
          × (length (tree_bytes offs node) + p ≡ e)
    write-tree_bytes_lem (trie_node edges export i s) p e order room more (q, laid, off, size, end)
          h is_trie (at, stand) rest =
        let me = trie_node edges export i s in
        let have = LaidAll-HaveOffs offs sizes p edges q laid (omega arith) in
        let n = node_size offs me in
        let len = length-node_bytes edges export i s offs is_trie have in
        let wrote : write_node me offs (zeros n) ≡ some (node_bytes offs me) =
          whole_node edges export i s offs n is_trie have (sym len) in
        let last =
          write_slice nodes placement i order n room me (node_bytes offs me) more size at wrote
            rest in
        let (before_it, sum) =
          write-all_bytes edges p q (i ∷ order) (n + room) (node_bytes offs me ++ more) laid
            (omega arith) is_trie.1 stand last in
        let le = LaidAll-le offs sizes p edges q laid in
        let count : q - p + (n + room) ≡ e - p + room = omega arith in
        (
          ap₂ (λ o r. write_slices nodes placement o r)
                (append_assoc (postorder_all edges) (i ∷ []) order) (sym count)
              ∙ (before_it
                  ∙ ap some (sym (append_assoc (all_bytes offs edges) (node_bytes offs me) more))),
          omega (arith, length-append (all_bytes offs edges) (node_bytes offs me)),
        )

    pub write-all_bytes :
        (edges : Children) (p e : ℕ) (order : List ℕ) (room : ℕ) (more : List ℕ)
        → LaidAll offs sizes p edges e
        → e < 2 ^ 32
        → AreEdges edges
        → StandAll nodes edges
        → write_slices nodes placement order room ≡ some more
        → (write_slices nodes placement (postorder_all edges ++ order) (e - p + room)
            ≡ some (all_bytes offs edges ++ more))
          × (length (all_bytes offs edges) + p ≡ e)
    write-all_bytes no_child p e order room more laid h are stand rest =
        let count : e - p + room ≡ room = omega arith in
        (ap (write_slices nodes placement order) count ∙ rest, omega arith)
    write-all_bytes (child label node edges) p e order room more (m, first, laid) h
          (label_ok, bytes, is_trie, are) (stand, stands) rest =
        let le = LaidOut-le offs sizes p node m first in
        let le' = LaidAll-le offs sizes m edges e laid in
        let (later, sum') = write-all_bytes edges m e order room more laid h are stands rest in
        let (wrote, sum) =
          write-tree_bytes_lem node p m (postorder_all edges ++ order) (e - m + room)
            (all_bytes offs edges ++ more) first (omega arith) is_trie stand later in
        let count : m - p + (e - m + room) ≡ e - p + room = omega arith in
        (
          ap₂ (λ o r. write_slices nodes placement o r)
                (append_assoc (postorder node) (postorder_all edges) order) (sym count)
              ∙ (wrote
                  ∙ ap some
                      (sym (append_assoc (tree_bytes offs node) (all_bytes offs edges) more))),
          omega (arith, length-append (tree_bytes offs node) (all_bytes offs edges)),
        )
