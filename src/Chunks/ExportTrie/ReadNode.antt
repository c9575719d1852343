-- ===== src/Chunks/ExportTrie/ReadNode.antt =====
-- A node of the export trie of macho/chunks/export_trie.rs reads back.
use mold_macho.Chunks.ExportTrie.{
  addr, terminal_size, Export, reexport, child, trie_node, index_of, Children, TrieNode,
}
use mold_macho.Chunks.ExportTrie.Lookup.{strip_label}
use mold_macho.Chunks.ExportTrie.Reader.{
  read_payload, read_terminal, read_label, read_trie, read_edges, find_edge,
}
use mold_macho.Chunks.ExportTrie.Shape.{IsTerminal, IsExport, IsNameByte, IsTrie}
use mold_macho.Chunks.ExportTrie.Write.{count_edges}
use mold_macho.Chunks.ExportTrie.WriteNode.{terminal_size-lt, length-uleb, off_of-some}
use mold_macho.Chunks.ExportTrie.Written.{terminal_bytes, payload, uleb, edges_bytes, node_bytes}
use mold_macho.Prelude.{
  ℕ, ◌++◌, append_assoc, length-append, none, bit_and, true, [], ◌==◌, Option, ◌≡◌, refl, List,
  length, ◌∷◌, ◌∙◌, ap, false, sym, arith, drop, some, ◌<◌, inl, inr, Bool-cases, ltb, suc, zero,
  ◌^◌, get_elem?,
}
use mold_macho.Prelude.Bytes.{All}
use mold_macho.Prelude.Fallible.{◌>>=◌}
use mold_macho.Prelude.Slices.{drop_all}
use mold_macho.Util.Leb.{read_uleb}
use mold_macho.Util.Leb.Encoding.{groups, uleb_size-groups}
use mold_macho.Util.Leb.Unsigned.{read_uleb-encode_uleb}

read_label-label :
    (label rest : List ℕ)
    → All IsNameByte label
    → read_label (label ++ 0 ∷ rest) ≡ some (label, rest)
unfolding read_label
read_label-label [] rest h = refl
read_label-label (b ∷ label) rest ((low, high), h) =
    let byte : (b == 0) ≡ false = ground arith in rw (byte, read_label-label label rest h) refl

read_payload-payload :
    (e : Export) (rest : List ℕ) → IsExport e → read_payload (payload e ++ rest) ≡ some e
unfolding read_payload payload
read_payload-payload (addr flags a) rest (hf, ha, plain) =
    let bit : (bit_and flags 0x08 == 0) ≡ true = rw plain refl in
    rw
      (
        append_assoc (uleb flags) (uleb a) rest,
        read_uleb-encode_uleb flags (uleb a ++ rest) (omega arith),
        bit,
        read_uleb-encode_uleb a rest ha,
      )
      refl
read_payload-payload (reexport ordinal name) rest (ho, hn, bytes) =
    let tail = name ++ 0 ∷ [] in
    let whole : (uleb 0x08 ++ (uleb ordinal ++ tail)) ++ rest
        ≡ uleb 0x08 ++ (uleb ordinal ++ (name ++ 0 ∷ rest)) =
      append_assoc (uleb 0x08) (uleb ordinal ++ tail) rest
      ∙ ap (λ l. uleb 0x08 ++ l)
          (append_assoc (uleb ordinal) tail rest
            ∙ ap (λ l. uleb ordinal ++ l) (append_assoc name (0 ∷ []) rest)) in
    rw
      (
        whole,
        read_uleb-encode_uleb 0x08 (uleb ordinal ++ (name ++ 0 ∷ rest)) (omega arith),
        read_uleb-encode_uleb ordinal (name ++ 0 ∷ rest) (omega arith),
        read_label-label name rest bytes,
      )
      refl

length-payload : (e : Export) → IsExport e → length (payload e) ≡ terminal_size e
unfolding payload terminal_size
length-payload (addr flags a) (hf, ha, plain) =
    omega (
      arith,
      length-append (uleb flags) (uleb a),
      length-uleb flags (omega arith),
      length-uleb a ha,
    )
length-payload (reexport ordinal name) (ho, hn, bytes) = omega (
  arith,
  length-append (uleb 0x08) (uleb ordinal ++ (name ++ 0 ∷ [])),
  length-append (uleb ordinal) (name ++ 0 ∷ []),
  length-append name (0 ∷ []),
  length-uleb 0x08 (omega arith),
  length-uleb ordinal (omega arith),
)

-- A payload is not empty.
groups-pos : (k value : ℕ) → 0 < length (groups k value)
unfolding groups
groups-pos zero value = omega arith
groups-pos (suc k) value = elim (Bool-cases (ltb value 128)) [
  | inl small ↦ rw small (omega arith)
  | inr large ↦ rw large (omega arith)
]

payload-pos : (e : Export) → IsExport e → (terminal_size e == 0) ≡ false
unfolding terminal_size
payload-pos (addr flags a) (hf, ha, plain) =
    ground (arith, uleb_size-groups 4 flags (omega arith), groups-pos 4 flags)
payload-pos (reexport ordinal name) h = ground arith

read_zero : (rest : List ℕ) → read_uleb (0 ∷ rest) ≡ some (0, rest)
unfolding read_uleb
read_zero rest = refl

-- What a node's bytes say at its terminal and at its edges.
terminal_read :
    (export : Option Export) (edges rest : List ℕ)
    → IsTerminal export
    → (size : ℕ) × (more : List ℕ) × (read_uleb (terminal_bytes export ++ (edges ++ rest))
        ≡ some (size, more))
      × (read_terminal size more ≡ some export)
      × (drop size more ≡ edges ++ rest)
unfolding terminal_bytes read_terminal
terminal_read none edges rest h = (0, edges ++ rest, read_zero (edges ++ rest), refl, refl)
terminal_read (some e) edges rest h =
    let t = terminal_size e in
    let tail = edges ++ rest in
    (
      t,
      payload e ++ tail,
      ap read_uleb (append_assoc (uleb t) (payload e) tail)
          ∙ read_uleb-encode_uleb t (payload e ++ tail) (terminal_size-lt e h),
      rw (payload-pos e h, read_payload-payload e tail h) refl,
      drop_all t (payload e) tail (sym (length-payload e h)),
    )

-- A round at a node, at its terminal and at its edges.
module _ (edges : Children) (export : Option Export) (i s : ℕ) (offs buf tail : List ℕ) (at : ℕ)
    (is_trie : IsTrie (trie_node edges export i s))
    (here : drop at buf ≡ node_bytes offs (trie_node edges export i s) ++ tail) where
  split_here :
      drop at buf ≡ terminal_bytes export ++ ((count_edges edges ∷ edges_bytes offs edges) ++ tail)
  unfolding node_bytes
  split_here =
      here ∙ append_assoc (terminal_bytes export) (count_edges edges ∷ edges_bytes offs edges) tail

  pub read_trie-here : (fuel : ℕ) → read_trie (suc fuel) buf at [] ≡ some export
  unfolding read_trie IsTrie
  read_trie-here fuel =
      let (size, more, read, terminal, skip) =
        terminal_read export (count_edges edges ∷ edges_bytes offs edges) tail is_trie.0 in
      rw (split_here, read) terminal

  pub read_trie-below :
      (fuel b : ℕ) (name : List ℕ)
      → read_trie (suc fuel) buf at (b ∷ name) ≡ (
          find_edge (count_edges edges) (edges_bytes offs edges ++ tail) (b ∷ name) >>= (λ found.
            elim found [ none ↦ some none | some (left, off) ↦ read_trie fuel buf off left ]))
  unfolding read_trie IsTrie read_edges
  read_trie-below fuel b name =
      let (size, more, read, terminal, skip) =
        terminal_read export (count_edges edges ∷ edges_bytes offs edges) tail is_trie.0 in
      rw (split_here, read, skip) refl

-- The first edge, by what its label leaves of the name.
pub find_edge-first :
    (label : List ℕ) (node : TrieNode) (edges : Children) (offs tail name : List ℕ) (off : ℕ)
    → All IsNameByte label
    → get_elem? offs (index_of node) ≡ some off
    → off < 2 ^ 32
    → find_edge
        (count_edges (child label node edges))
        (edges_bytes offs (child label node edges) ++ tail)
        name
      ≡ elim (strip_label label name) as (λ o. Option (Option (List ℕ × ℕ))) [
        | some left ↦ some (some (left, off))
        | none ↦ find_edge (count_edges edges) (edges_bytes offs edges ++ tail) name
      ]
unfolding find_edge count_edges edges_bytes
find_edge-first label node edges offs tail name off bytes at small =
    let more = edges_bytes offs edges in
    let same = off_of-some offs (index_of node) off at in
    let o = uleb off in
    let whole : edges_bytes offs (child label node edges) ++ tail
        ≡ label ++ (0 ∷ (o ++ (more ++ tail))) =
      ap (λ (v : ℕ). (label ++ (0 ∷ (uleb v ++ more))) ++ tail) same
      ∙ (append_assoc label (0 ∷ (o ++ more)) tail
          ∙ ap (λ l. label ++ (0 ∷ l)) (append_assoc o more tail)) in
    rw
      (
        whole,
        read_label-label label (o ++ (more ++ tail)) bytes,
        read_uleb-encode_uleb off (more ++ tail) (omega arith),
      )
      refl
