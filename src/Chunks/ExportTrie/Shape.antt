-- ===== src/Chunks/ExportTrie/Shape.antt =====
-- The shape of a trie of macho/chunks/export_trie.rs: what the labels of a node's edges and the
-- exports are.
use mold_macho.Chunks.ExportTrie.{
  Entry, Children, addr, Export, TrieNode, trie_node, child, reexport, no_child,
}
use mold_macho.Prelude.{List, length, ◌≡◌, ℕ, ◌<◌, ◌∷◌, Option, ◌^◌, none, some, bit_and}
use mold_macho.Prelude.Bytes.{All}

abbrev pub IsNameByte : ℕ → Type 0
IsNameByte b = (0 < b) × (b < 256)

-- Flags and an ordinal are 32-bit numbers, an address is a 64-bit one, and a name has no zero byte.
-- An address does not have the flag of a re-export.
abbrev pub IsExport : Export → Type 0
IsExport (addr flags a) = (flags < 2 ^ 32) × (a < 2 ^ 64) × (bit_and flags 0x08 ≡ 0)
IsExport (reexport ordinal name) = (ordinal < 2 ^ 32) × (length name < 2 ^ 32) × All IsNameByte name

abbrev pub IsEntry : Entry → Type 0
IsEntry e = All IsNameByte e.0 × IsExport e.1

abbrev pub IsTerminal : Option Export → Type 0
IsTerminal none = Unit
IsTerminal (some e) = IsExport e

-- A label that starts with `b`.
abbrev pub StartsWith : ℕ → List ℕ → Type 0
StartsWith b label = (s : List ℕ) × (label ≡ b ∷ s)

-- The edges' labels start with bytes greater than `b`.
unfoldable pub Above : ℕ → Children → Type 0
Above b no_child = Unit
Above b (child label node edges) = ((x : ℕ) × (b < x) × StartsWith x label) × Above b edges

-- A node's labels are non-empty and in the order of their first bytes.
unfoldable mutual
  pub IsTrie : TrieNode → Type 0
  IsTrie (trie_node edges export i s) = IsTerminal export × AreEdges edges

  pub AreEdges : Children → Type 0
  AreEdges no_child = Unit
  AreEdges (child label node edges) =
      ((b : ℕ) × StartsWith b label × Above b edges)
      × All IsNameByte label
      × IsTrie node
      × AreEdges edges
