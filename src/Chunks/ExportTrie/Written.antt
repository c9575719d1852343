-- ===== src/Chunks/ExportTrie/Written.antt =====
-- What write_node of macho/chunks/export_trie.rs writes, as a byte string.
use mold_macho.Chunks.ExportTrie.{
  addr, no_child, terminal_size, Export, child, Children, index_of, reexport, export_of, TrieNode,
  children_of,
}
use mold_macho.Chunks.ExportTrie.Walk.{off_of}
use mold_macho.Chunks.ExportTrie.Write.{put_uleb, put_bytes, Slice, count_edges}
use mold_macho.Prelude.{
  length-append, leb, replicate, ◌<◌, ℕ, some, suc, refl, append_assoc, List, zero, [], ◌+◌, none,
  ◌≡◌, Option, length, ◌++◌, drop, arith, true, ◌^◌, ap, sym, ◌∙◌, ◌∷◌, get_elem?, ap₂,
  if◌then◌else◌,
}
use mold_macho.Prelude.Slices.{drop_all, drop_add, take_all}
use mold_macho.Util.Leb.{uleb_size, encode_uleb, write_uleb}
use mold_macho.Util.Leb.Unsigned.{write_uleb-encode_uleb}

abbrev pub uleb : ℕ → List ℕ
uleb value = encode_uleb [] value

unfoldable pub payload : Export → List ℕ
payload (addr flags a) = uleb flags ++ uleb a
payload (reexport ordinal name) = uleb 0x08 ++ (uleb ordinal ++ (name ++ 0 ∷ []))

unfoldable pub terminal_bytes : Option Export → List ℕ
unfolding payload terminal_size
terminal_bytes none = 0 ∷ []
terminal_bytes (some e) = uleb (terminal_size e) ++ payload e

unfoldable pub edges_bytes : List ℕ → Children → List ℕ
edges_bytes offs no_child = []
edges_bytes offs (child label node edges) =
    label ++ (0 ∷ (uleb (off_of offs (index_of node)) ++ edges_bytes offs edges))

unfoldable pub node_bytes : List ℕ → TrieNode → List ℕ
unfolding terminal_bytes edges_bytes count_edges
node_bytes offs node =
    terminal_bytes (export_of node)
    ++ (count_edges (children_of node) ∷ edges_bytes offs (children_of node))

-- A node's children have their offsets.
unfoldable pub HaveOffs : List ℕ → Children → Type 0
HaveOffs offs no_child = Unit
HaveOffs offs (child label node edges) =
    ((off : ℕ) × (get_elem? offs (index_of node) ≡ some off) × (off < 2 ^ 32)) × HaveOffs offs edges

-- A slice that has `k` bytes left.
abbrev pub zeros : ℕ → List ℕ
zeros k = replicate k 0

abbrev pub slice_of : List ℕ → ℕ → Slice
slice_of written k = (written ++ zeros k, length written)

pub length-zeros : (k : ℕ) → length (zeros k) ≡ k
length-zeros zero = refl
length-zeros (suc k) = ap suc (length-zeros k)

drop-zeros : (n k : ℕ) → drop n (zeros (n + k)) ≡ zeros k
drop-zeros zero k = let e : 0 + k ≡ k = omega arith in rw e refl
drop-zeros (suc n) k = let e : suc n + k ≡ suc (n + k) = omega arith in rw e (drop-zeros n k)

room_left :
    (written : List ℕ) (n k : ℕ)
    → leb (length written + n) (length (written ++ zeros (n + k))) ≡ true
room_left written n k = ground (arith, length-append written (zeros (n + k)), length-zeros (n + k))

pub put_bytes-slice_of :
    (bytes written : List ℕ) (k : ℕ)
    → put_bytes bytes (slice_of written (length bytes + k)) ≡ some (slice_of (written ++ bytes) k)
unfolding put_bytes
put_bytes-slice_of bytes written k =
    let n = length bytes in
    let fits = room_left written n k in
    let front = take_all (length written) written (zeros (n + k)) refl in
    let back : drop (length written + n) (written ++ zeros (n + k)) ≡ zeros k =
      sym (drop_add (length written) n (written ++ zeros (n + k)))
      ∙ (ap (drop n) (drop_all (length written) written (zeros (n + k)) refl) ∙ drop-zeros n k) in
    let p = length-append written bytes in
    rw (fits, front, back, p)
      (ap (λ l. some (l, length written + n)) (sym (append_assoc written bytes (zeros k))))

write_uleb-zeros :
    (value k : ℕ)
    → value < 2 ^ 64
    → write_uleb (zeros (length (uleb value) + k)) value
      ≡ some (uleb value ++ zeros k, length (uleb value))
write_uleb-zeros value k h =
    let n = length (uleb value) in
    let (size, write) = write_uleb-encode_uleb (zeros (n + k)) value h in
    let len = length-zeros (n + k) in
    let fits : leb (uleb_size value) (length (zeros (n + k))) ≡ true =
      ap₂ leb (sym size) len ∙ ground arith in
    write
    ∙ (ap
          (λ b.
            if b
            then some (uleb value ++ drop (uleb_size value) (zeros (n + k)), uleb_size value)
            else none)
          fits
        ∙ ap (λ (m : ℕ). some (uleb value ++ drop m (zeros (n + k)), m)) (sym size)
        ∙ ap (λ (l : List ℕ). some (uleb value ++ l, n)) (drop-zeros n k))

pub put_uleb-slice_of :
    (value : ℕ) (written : List ℕ) (k : ℕ)
    → value < 2 ^ 64
    → put_uleb value (slice_of written (length (uleb value) + k))
      ≡ some (slice_of (written ++ uleb value) k)
unfolding put_uleb
put_uleb-slice_of value written k h =
    let n = length (uleb value) in
    let front = take_all (length written) written (zeros (n + k)) refl in
    let rest = drop_all (length written) written (zeros (n + k)) refl in
    let p = length-append written (uleb value) in
    rw (rest, write_uleb-zeros value k h, front, p)
      (ap (λ l. some (l, length written + n)) (sym (append_assoc written (uleb value) (zeros k))))
