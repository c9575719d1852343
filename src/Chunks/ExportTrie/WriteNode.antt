-- ===== src/Chunks/ExportTrie/WriteNode.antt =====
-- write_node of macho/chunks/export_trie.rs writes a node's bytes into a slice with room for them,
-- and leaves the rest of the slice zero.
use mathlib.Core.Path.{subst}
use mold_macho.Chunks.ExportTrie.{
  reexport, Export, Children, child, addr, no_child, terminal_size, trie_node, index_of,
}
use mold_macho.Chunks.ExportTrie.Rooms.{length-groups}
use mold_macho.Chunks.ExportTrie.Shape.{IsTerminal, IsExport, AreEdges, IsTrie, Above, IsNameByte}
use mold_macho.Chunks.ExportTrie.Walk.{off_of}
use mold_macho.Chunks.ExportTrie.Write.{
  put_terminal, put_edges, put_uleb, Slice, put_bytes, count_edges, write_node,
}
use mold_macho.Chunks.ExportTrie.Written.{
  terminal_bytes, put_uleb-slice_of, payload, put_bytes-slice_of, uleb, HaveOffs, slice_of,
  edges_bytes, zeros, node_bytes,
}
use mold_macho.Prelude.{
  ◌∷◌, List, ◌≡◌, length, length-append, ◌^◌, ◌++◌, [], ◌+◌, ◌<◌, ◌≤◌, Option, none, arith, some,
  ap, ◌∙◌, ℕ, append_assoc, ◌%◌, sym, ap₂, get_elem?, append-nil,
}
use mold_macho.Prelude.Bytes.{All}
use mold_macho.Prelude.Fallible.{◌>>=◌}
use mold_macho.Util.Leb.{uleb_size}
use mold_macho.Util.Leb.Encoding.{uleb_size-groups}
use mold_macho.Util.Leb.Unsigned.{write_uleb-encode_uleb}
use native.Mathlib.Nat.{mod-eq_of_lt}

-- `f` writes `bytes` at the front of the room that a slice has left.
abbrev Puts : (Slice → Option Slice) → List ℕ → Type 0
Puts f bytes =
    (written : List ℕ) (k : ℕ)
    → f (slice_of written (length bytes + k)) ≡ some (slice_of (written ++ bytes) k)

Puts-then :
    (f g : Slice → Option Slice) (xs ys : List ℕ)
    → Puts f xs
    → Puts g ys
    → Puts (λ s. f s >>= g) (xs ++ ys)
Puts-then f g xs ys hf hg written k =
    let count : length (xs ++ ys) + k ≡ length xs + (length ys + k) =
      omega (arith, length-append xs ys) in
    ap (λ (n : ℕ). f (slice_of written n) >>= g) count
    ∙ (ap (λ r. r >>= g) (hf written (length ys + k))
        ∙ (hg (written ++ xs) k ∙ ap (λ l. some (slice_of l k)) (append_assoc written xs ys)))

uleb-Puts : (value : ℕ) → value < 2 ^ 64 → Puts (put_uleb value) (uleb value)
uleb-Puts value h written k = put_uleb-slice_of value written k h

bytes-Puts : (bytes : List ℕ) → Puts (put_bytes bytes) bytes
bytes-Puts bytes written k = put_bytes-slice_of bytes written k

uleb_size-le_ten : (value : ℕ) → value < 2 ^ 64 → uleb_size value ≤ 10
uleb_size-le_ten value h =
    omega (arith, uleb_size-groups 9 value (omega arith), length-groups 9 value)

pub length-uleb : (value : ℕ) → value < 2 ^ 64 → length (uleb value) ≡ uleb_size value
length-uleb value h = (write_uleb-encode_uleb [] value h).0

pub terminal_size-lt : (e : Export) → IsExport e → (terminal_size e < 2 ^ 64)
unfolding terminal_size
terminal_size-lt (addr flags a) (hf, ha, plain) =
    omega (arith, uleb_size-le_ten flags (omega arith), uleb_size-le_ten a ha)
terminal_size-lt (reexport ordinal name) (ho, hn, bytes) =
    omega (arith, uleb_size-le_ten 0x08 (omega arith), uleb_size-le_ten ordinal (omega arith))

terminal-Puts :
    (export : Option Export)
    → IsTerminal export
    → Puts (put_terminal export) (terminal_bytes export)
unfolding put_terminal terminal_bytes payload
terminal-Puts none h = bytes-Puts (0 ∷ [])
terminal-Puts (some (addr flags a)) h =
    let t = terminal_size (addr flags a) in
    subst (Puts (put_terminal (some (addr flags a)))) (append_assoc (uleb t) (uleb flags) (uleb a))
      (Puts-then (λ s. put_uleb t s >>= put_uleb flags) (put_uleb a) (uleb t ++ uleb flags) (uleb a)
        (Puts-then (put_uleb t) (put_uleb flags) (uleb t) (uleb flags)
          (uleb-Puts t (terminal_size-lt (addr flags a) h)) (uleb-Puts flags (omega arith)))
        (uleb-Puts a h.1))
terminal-Puts (some (reexport ordinal name)) h =
    let t = terminal_size (reexport ordinal name) in
    let start = uleb t ++ uleb 0x08 in
    let f1 : Slice → Option Slice = λ s. put_uleb t s >>= put_uleb 0x08 in
    let f2 : Slice → Option Slice = λ s. f1 s >>= put_uleb ordinal in
    let f3 : Slice → Option Slice = λ s. f2 s >>= put_bytes name in
    let p1 : Puts f1 start =
      Puts-then (put_uleb t) (put_uleb 0x08) (uleb t) (uleb 0x08)
        (uleb-Puts t (terminal_size-lt (reexport ordinal name) h)) (uleb-Puts 0x08 (omega arith)) in
    let p2 : Puts f2 (start ++ uleb ordinal) =
      Puts-then f1 (put_uleb ordinal) start (uleb ordinal) p1 (uleb-Puts ordinal (omega arith)) in
    let p3 : Puts f3 ((start ++ uleb ordinal) ++ name) =
      Puts-then f2 (put_bytes name) (start ++ uleb ordinal) name p2 (bytes-Puts name) in
    subst (Puts (put_terminal (some (reexport ordinal name))))
      (append_assoc (start ++ uleb ordinal) name (0 ∷ [])
        ∙ (append_assoc start (uleb ordinal) (name ++ 0 ∷ [])
            ∙ append_assoc (uleb t) (uleb 0x08) (uleb ordinal ++ (name ++ 0 ∷ []))))
      (Puts-then f3 (put_bytes (0 ∷ [])) ((start ++ uleb ordinal) ++ name) (0 ∷ []) p3
        (bytes-Puts (0 ∷ [])))

pub off_of-some : (offs : List ℕ) (i off : ℕ) → get_elem? offs i ≡ some off → off_of offs i ≡ off
off_of-some offs i off at = ap (λ (o : Option ℕ). elim o as (λ q. ℕ) [ some x ↦ x | none ↦ 0 ]) at

offset-Puts :
    (offs : List ℕ) (i off : ℕ) (rest : Slice → Option Slice) (bytes : List ℕ)
    → get_elem? offs i ≡ some off
    → off < 2 ^ 32
    → Puts rest bytes
    → Puts
        (λ s. get_elem? offs i >>= (λ o. put_uleb o s >>= (λ s'. rest s')))
        (uleb (off_of offs i) ++ bytes)
offset-Puts offs i off rest bytes at small h =
    subst
      (λ (v : ℕ).
        Puts (λ s. get_elem? offs i >>= (λ o. put_uleb o s >>= (λ s'. rest s'))) (uleb v ++ bytes))
      (sym (off_of-some offs i off at))
      (λ written k.
        ap
          (λ r. r >>= (λ o.
            put_uleb o (slice_of written (length (uleb off ++ bytes) + k)) >>= (λ s'. rest s')))
          at
        ∙ Puts-then (put_uleb off) rest (uleb off) bytes (uleb-Puts off (omega arith)) h written k)

edges-Puts :
    (offs : List ℕ) (edges : Children)
    → HaveOffs offs edges
    → Puts (put_edges offs edges) (edges_bytes offs edges)
unfolding put_edges edges_bytes HaveOffs
edges-Puts offs no_child h = λ written k.
    let e : 0 + k ≡ k = omega arith in
    ap₂ (λ n w. some (w ++ zeros n, length w)) e (sym (append-nil written))
edges-Puts offs (child label node edges) ((off, at, small), h) =
    let more = edges_bytes offs edges in
    let offset = uleb (off_of offs (index_of node)) ++ more in
    subst (Puts (put_edges offs (child label node edges))) (append_assoc label (0 ∷ []) offset) (
      Puts-then (λ s. put_bytes label s >>= put_bytes (0 ∷ []))
        (λ s.
          get_elem? offs (index_of node)
          >>= (λ o. put_uleb o s >>= (λ s'. put_edges offs edges s')))
        (label ++ 0 ∷ []) offset
        (Puts-then (put_bytes label) (put_bytes (0 ∷ [])) label (0 ∷ []) (bytes-Puts label)
          (bytes-Puts (0 ∷ [])))
        (offset-Puts offs (index_of node) off (put_edges offs edges) more at small
          (edges-Puts offs edges h)))

-- A node has fewer than 256 edges, as their labels start with different bytes that are not zero.
edges-few :
    (b : ℕ) (edges : Children)
    → b < 256
    → Above b edges
    → AreEdges edges
    → count_edges edges + b < 256
unfolding Above IsTrie count_edges
edges-few b no_child h above are = omega arith
edges-few b (child label node edges) h ((x, lt, (s, e)), above)
      ((y, (t, e'), above'), bytes, is_trie, are) =
    let byte : x < 256 = (subst (All IsNameByte) e bytes).0.1 in
    let same : x ∷ s ≡ y ∷ t = sym e ∙ e' in
    let head : x ≡ y = cc in
    omega (arith, edges-few x edges byte (subst (λ (n : ℕ). Above n edges) (sym head) above') are)

pub count_edges-lt : (edges : Children) → AreEdges edges → count_edges edges < 256
unfolding Above IsTrie count_edges
count_edges-lt no_child are = omega arith
count_edges-lt (child label node edges) ((y, (t, e'), above), bytes, is_trie, are) =
    let byte = (subst (All IsNameByte) e' bytes).0 in
    omega (arith, edges-few y edges byte.1 above are)

pub write_node-node_bytes :
    (edges : Children) (export : Option Export) (i s : ℕ) (offs : List ℕ) (k : ℕ)
    → let node = trie_node edges export i s in
      IsTrie node
      → HaveOffs offs edges
      → write_node node offs (zeros (length (node_bytes offs node) + k))
        ≡ some (node_bytes offs node ++ zeros k)
unfolding write_node node_bytes IsTrie
write_node-node_bytes edges export i s offs k (terminal, are) have =
    let n = count_edges edges in
    let byte : n % 256 ≡ n = mod-eq_of_lt (count_edges-lt edges are) in
    let t = terminal_bytes export in
    let es = edges_bytes offs edges in
    let head : Slice → Option Slice = λ s'. put_terminal export s' >>= put_bytes ((n % 256) ∷ []) in
    let wrote =
      Puts-then head (put_edges offs edges) (t ++ (n % 256) ∷ []) es
        (Puts-then (put_terminal export) (put_bytes ((n % 256) ∷ [])) t ((n % 256) ∷ [])
          (terminal-Puts export terminal) (bytes-Puts ((n % 256) ∷ [])))
        (edges-Puts offs edges have) in
    let whole : (t ++ (n % 256) ∷ []) ++ es ≡ t ++ n ∷ es =
      append_assoc t ((n % 256) ∷ []) es ∙ ap (λ (c : ℕ). t ++ c ∷ es) byte in
    ap (λ r. r >>= (λ s'. some s'.0))
      (subst (Puts (λ s'. head s' >>= put_edges offs edges)) whole wrote [] k)
