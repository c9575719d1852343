-- ===== src/Chunks/ExportTrie/Descent.antt =====
-- The walk down the bytes of the export trie of macho/chunks/export_trie.rs finds what the walk down
-- the tree finds.
use mold_macho.Chunks.ExportTrie.{Children, TrieNode, child, no_child, Export, index_of, trie_node}
use mold_macho.Chunks.ExportTrie.Layout.{LaidAll, LaidOut}
use mold_macho.Chunks.ExportTrie.Lookup.{
  find_below, find_below_by, find, strip_label, strip_label-some, find_below-passed,
}
use mold_macho.Chunks.ExportTrie.Placing.{Placement}
use mold_macho.Chunks.ExportTrie.ReadNode.{read_trie-here, read_trie-below, find_edge-first}
use mold_macho.Chunks.ExportTrie.Reader.{find_edge, read_trie}
use mold_macho.Chunks.ExportTrie.Rooms.{LaidAll-le}
use mold_macho.Chunks.ExportTrie.Shape.{IsTrie, StartsWith, AreEdges}
use mold_macho.Chunks.ExportTrie.Slices.{
  tree_bytes, write-all_bytes, all_bytes, write-tree_bytes_lem, LaidAll-HaveOffs,
}
use mold_macho.Chunks.ExportTrie.Walk.{Stands, StandAll}
use mold_macho.Chunks.ExportTrie.Write.{write_slices, count_edges}
use mold_macho.Chunks.ExportTrie.Written.{edges_bytes, node_bytes, HaveOffs}
use mold_macho.Chunks.Unwind.Encode.Arrays.{drop-past}
use mold_macho.Prelude.{
  arith, none, ◌∙◌, length, ◌^◌, refl, drop, suc, sym, zero, get_elem?, ◌+◌, some, ◌≡◌, List, ◌<◌,
  length-append, ◌∷◌, append_assoc, ℕ, [], ◌++◌, ap, Option,
}
use mold_macho.Prelude.Fallible.{◌>>=◌, some_inj}

abbrev pub follow : ℕ → List ℕ → Option (List ℕ × ℕ) → Option (Option Export)
follow fuel buf found = elim found [
  | none ↦ some none
  | some (left, off) ↦ read_trie fuel buf off left
]

-- `stripped` is what the first edge's label leaves of the name, and `passed` what the other edges
-- give.
edge_step :
    (fuel : ℕ) (buf label : List ℕ) (node : TrieNode) (edges : Children) (b : ℕ) (name : List ℕ)
    (off x : ℕ) (passed : Option (Option (List ℕ × ℕ))) (stripped : Option (List ℕ))
    → strip_label label (b ∷ name) ≡ stripped
    → StartsWith x label
    → length (b ∷ name) < suc fuel
    → ((left : List ℕ) → length left < fuel → read_trie fuel buf off left ≡ some (find node left))
    → (passed >>= follow fuel buf) ≡ some (find_below edges (b ∷ name))
    → (elim stripped as (λ o. Option (Option (List ℕ × ℕ))) [
      | some left ↦ some (some (left, off))
      | none ↦ passed
    ]
        >>= follow fuel buf)
      ≡ some (find_below (child label node edges) (b ∷ name))
edge_step fuel buf label node edges b name off x passed none e starts short below rest =
    rest ∙ ap some (sym (find_below-passed label (b ∷ name) node edges e))
edge_step fuel buf label node edges b name off x passed (some left) e (s, es) short below rest =
    let whole = strip_label-some label (b ∷ name) left e in
    let sizes = length-append label left in
    let len : length (b ∷ name) ≡ length label + length left = ap length whole ∙ sizes in
    let bare : length label ≡ suc (length s) = ap length es in
    below left (omega arith)
    ∙ ap some (sym (find_below_by label node edges (b ∷ name) (some left) e))

module _ (nodes : List TrieNode) (placement : Placement) (buf : List ℕ) where
  abbrev offs : List ℕ
  offs = placement.offs

  abbrev sizes : List ℕ
  sizes = placement.sizes

  length-all_bytes :
      (edges : Children) (p e : ℕ)
      → LaidAll offs sizes p edges e
      → e < 2 ^ 32
      → AreEdges edges
      → StandAll nodes edges
      → length (all_bytes offs edges) + p ≡ e
  length-all_bytes edges p e laid h are stands =
      (write-all_bytes nodes placement edges p e [] 0 [] laid h are stands
        (unfold write_slices in refl)).1

  length-tree_bytes :
      (node : TrieNode) (p e : ℕ)
      → LaidOut offs sizes p node e
      → e < 2 ^ 32
      → IsTrie node
      → Stands nodes node
      → length (tree_bytes offs node) + p ≡ e
  length-tree_bytes node p e laid h is_trie stand =
      (write-tree_bytes_lem nodes placement node p e [] 0 [] laid h is_trie stand
        (unfold write_slices in refl)).1

  -- A node, by its edges.
  node_step :
      (edges : Children) (export : Option Export) (i s : ℕ) (tail : List ℕ) (fuel : ℕ)
      (name : List ℕ) (off : ℕ)
      → IsTrie (trie_node edges export i s)
      → drop off buf ≡ node_bytes offs (trie_node edges export i s) ++ tail
      → ((b : ℕ) (rest : List ℕ)
          → length (b ∷ rest) < suc fuel
          → (find_edge (count_edges edges) (edges_bytes offs edges ++ tail) (b ∷ rest)
              >>= follow fuel buf)
            ≡ some (find_below edges (b ∷ rest)))
      → length name < suc fuel
      → read_trie (suc fuel) buf off name ≡ some (find (trie_node edges export i s) name)
  unfolding find
  node_step edges export i s tail fuel [] off is_trie here below short =
      read_trie-here edges export i s offs buf tail off is_trie here fuel
  node_step edges export i s tail fuel (b ∷ rest) off is_trie here below short =
      read_trie-below edges export i s offs buf tail off is_trie here fuel b rest
      ∙ below b rest short

  mutual
    unfolding LaidOut tree_bytes IsTrie Stands find count_edges find_edge HaveOffs

    read-node :
        (node : TrieNode) (p e fuel : ℕ) (name tail : List ℕ) (off : ℕ)
        → LaidOut offs sizes p node e
        → e < 2 ^ 32
        → IsTrie node
        → Stands nodes node
        → drop p buf ≡ tree_bytes offs node ++ tail
        → get_elem? offs (index_of node) ≡ some off
        → length name < fuel
        → read_trie fuel buf off name ≡ some (find node name)
    read-node node p e zero name tail off laid h is_trie stands here at short = absurd (omega arith)
    read-node (trie_node edges export i s) p e (suc fuel) name tail off (q, laid, off_at, size, end)
          h is_trie (st, stands) here at short =
        let me = trie_node edges export i s in
        let all = all_bytes offs edges in
        let len = length-all_bytes edges p q laid (omega arith) is_trie.1 stands in
        let same : q ≡ off = some_inj (sym off_at ∙ at) in
        let split : drop p buf ≡ all ++ (node_bytes offs me ++ tail) =
          here ∙ append_assoc all (node_bytes offs me) tail in
        let place_at : drop (p + length all) buf ≡ node_bytes offs me ++ tail =
          drop-past buf p (length all) all (node_bytes offs me ++ tail) split refl in
        let to_off : p + length all ≡ off = omega arith in
        node_step edges export i s tail fuel name off is_trie (rw to_off at place_at)
          (λ b rest short'.
            read-edges edges p q fuel b rest (node_bytes offs me ++ tail) tail laid (omega arith)
              is_trie.1 stands split short')
          short

    pub read-edges :
        (edges : Children) (p e fuel b : ℕ) (name tail more : List ℕ)
        → LaidAll offs sizes p edges e
        → e < 2 ^ 32
        → AreEdges edges
        → StandAll nodes edges
        → drop p buf ≡ all_bytes offs edges ++ tail
        → length (b ∷ name) < suc fuel
        → (find_edge (count_edges edges) (edges_bytes offs edges ++ more) (b ∷ name)
            >>= follow fuel buf)
          ≡ some (find_below edges (b ∷ name))
    read-edges no_child p e fuel b name tail more laid h are stands here short = refl
    read-edges (child label node edges) p e fuel b name tail more (m, first, laid) h
          ((x, starts, above), bytes, is_trie, are) (stand, stands) here short =
        let ((off, at, small), have) =
          LaidAll-HaveOffs offs sizes p (child label node edges) e (m, first, laid) h in
        let le = LaidAll-le offs sizes m edges e laid in
        let tree = tree_bytes offs node in
        let split : drop p buf ≡ tree ++ (all_bytes offs edges ++ tail) =
          here ∙ append_assoc tree (all_bytes offs edges) tail in
        let len = length-tree_bytes node p m first (omega arith) is_trie stand in
        let next : drop m buf ≡ all_bytes offs edges ++ tail =
          ap (λ (k : ℕ). drop k buf) (omega arith)
          ∙ drop-past buf p (length tree) tree (all_bytes offs edges ++ tail) split refl in
        ap (λ r. r >>= follow fuel buf)
          (find_edge-first label node edges offs more (b ∷ name) off bytes at small)
        ∙ edge_step fuel buf label node edges b name off x
            (find_edge (count_edges edges) (edges_bytes offs edges ++ more) (b ∷ name))
            (strip_label label (b ∷ name)) refl starts short
            (λ left short'.
              read-node node p m fuel left (all_bytes offs edges ++ tail) off first (omega arith)
                is_trie stand split at short')
            (read-edges edges m e fuel b name tail more laid h are stands next short)
