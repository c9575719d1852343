-- ===== src/Chunks/ExportTrie/Reader.antt =====
-- A reader of the export trie, for macho/chunks/export_trie.rs: the walk of a loader that looks a
-- name up in the bytes. `none` is a trie that cannot be read.
use mold_macho.Chunks.ExportTrie.{reexport, Export, addr}
use mold_macho.Chunks.ExportTrie.Lookup.{strip_label}
use mold_macho.Prelude.{
  zero, some, if◌then◌else◌, drop, ◌∷◌, Option, none, bit_and, suc, ℕ, ◌==◌, List, [],
}
use mold_macho.Prelude.Fallible.{◌>>=◌}
use mold_macho.Util.Leb.{read_uleb}

-- A label, up to its zero byte, and what follows it.
unfoldable pub read_label : List ℕ → Option (List ℕ × List ℕ)
read_label [] = none
read_label (b ∷ bytes) =
    let more = read_label bytes in
    if b == 0 then some ([], bytes) else more >>= (λ (label, rest). some (b ∷ label, rest))

-- What a name has left after the edge whose label it starts with, and the child's offset.
unfoldable pub find_edge : ℕ → List ℕ → List ℕ → Option (Option (List ℕ × ℕ))
unfolding read_label strip_label
find_edge zero bytes name = some none
find_edge (suc n) bytes name = read_label bytes >>= (λ (label, rest).
    read_uleb rest >>= (λ (off, more). elim (strip_label label name) [
      | some left ↦ some (some (left, off))
      | none ↦ find_edge n more name
    ]))

unfoldable pub read_payload : List ℕ → Option Export
unfolding read_label
read_payload bytes = read_uleb bytes >>= (λ (flags, rest).
    if bit_and flags 0x08 == 0
    then read_uleb rest >>= (λ (a, more). some (addr flags a))
    else read_uleb rest >>= (λ (ordinal, more).
      read_label more >>= (λ (name, after_it). some (reexport ordinal name))))

unfoldable pub read_terminal : ℕ → List ℕ → Option (Option Export)
unfolding read_payload
read_terminal size bytes =
    if size == 0 then some none else read_payload bytes >>= (λ e. some (some e))

unfoldable pub read_edges : List ℕ → List ℕ → Option (Option (List ℕ × ℕ))
unfolding find_edge
read_edges [] name = none
read_edges (n ∷ bytes) name = find_edge n bytes name

-- A name of `n` bytes is followed for `n` edges at most, so `n + 1` rounds are enough.
unfoldable pub read_trie : ℕ → List ℕ → ℕ → List ℕ → Option (Option Export)
unfolding read_terminal read_edges
read_trie zero buf at name = none
read_trie (suc fuel) buf at [] =
    read_uleb (drop at buf) >>= (λ (size, rest). read_terminal size rest)
read_trie (suc fuel) buf at (b ∷ name) = read_uleb (drop at buf) >>= (λ (size, rest).
    read_edges (drop size rest) (b ∷ name)
    >>= (λ found. elim found [ none ↦ some none | some (left, off) ↦ read_trie fuel buf off left ]))
