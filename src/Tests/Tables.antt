-- ===== src/Tests/Tables.antt =====
-- Runs of the tables of macho/chunks: the compact unwind table and the export trie.
use mathlib.Core.Path.{subst}
use mold_macho.Chunks.ExportTrie.{
  addr, longest, reexport, Entry, terminal_size, split_groups, build_trie, TrieNode,
}
use mold_macho.Chunks.ExportTrie.Build.{build_trie-find}
use mold_macho.Chunks.ExportTrie.Layout.{room}
use mold_macho.Chunks.ExportTrie.Lookup.{find, lookup}
use mold_macho.Chunks.ExportTrie.Order.{IsSorted}
use mold_macho.Chunks.ExportTrie.Placing.{labels_size, fixed_size}
use mold_macho.Chunks.ExportTrie.ReadBack.{encode_export_trie-lookup}
use mold_macho.Chunks.ExportTrie.Reader.{read_trie}
use mold_macho.Chunks.ExportTrie.Shape.{IsEntry, IsTrie}
use mold_macho.Chunks.ExportTrie.Write.{count_edges, encode_export_trie}
use mold_macho.Chunks.Unwind.{func_addr, UnwindRecord, Page, split_pages}
use mold_macho.Chunks.Unwind.Encode.{encode_page, span_of, write_table}
use mold_macho.Chunks.Unwind.Encode.Pages2.{IsRecord}
use mold_macho.Chunks.Unwind.Encode.ReadBack.{write_table-table_entries}
use mold_macho.Chunks.Unwind.Encode.Reader.{table_lsdas, lsda_pairs, table_entries, entry_of}
use mold_macho.Prelude.{
  some, List, ◌≡◌, arith, ◌-◌, suc, length, ℕ, [], refl, ◌+◌, ◌*◌, ◌<◌, false, map, ◌∷◌, ◌^◌,
}
use mold_macho.Prelude.Bytes.{All, codes}
use mold_macho.Prelude.Fallible.{some_inj}
use mold_macho.Util.Leb.{uleb_size}
use mold_macho.Util.Names.{name_cmp}

abbrev isec_addr : ℕ → ℕ
isec_addr isec = 0x1_0000_0000 + 0x100 * isec

abbrev plain_record : ℕ → ℕ → UnwindRecord
plain_record isec encoding = record {
  isec = isec;
  input_offset = 0;
  code_len = 0x40;
  encoding = encoding;
  personality_sym = 2 ^ 32 - 1;
  lsda_isec = 2 ^ 32 - 1;
  lsda_off = 0;
  fde_idx = 2 ^ 32 - 1;
}

abbrev with_lsda : UnwindRecord
with_lsda = record (plain_record 2 0x5200_0000) { personality_sym = 7; lsda_isec = 9; lsda_off = 4 }

abbrev three_records : List UnwindRecord
three_records = plain_record 1 0x0200_0000 ∷ with_lsda ∷ plain_record 3 0x0200_0000 ∷ []

table_short :
    (pages : List Page) (table : List ℕ)
    → split_pages isec_addr three_records ≡ some pages
    → write_table isec_addr 0x1_0000_0000 three_records (7 ∷ []) pages 0x1_0000_0400 ≡ some table
    → length table < 2 ^ 32
unfolding split_pages write_table span_of encode_page
table_short pages table split made =
    subst
      (λ (ps : List Page).
        write_table isec_addr 0x1_0000_0000 three_records (7 ∷ []) ps 0x1_0000_0400 ≡ some table
        → length table < 2 ^ 32)
      (some_inj split)
      (λ made'. subst (λ (t : List ℕ). length t < 2 ^ 32) (some_inj made') (omega arith)) made

three_records-IsRecord : All (IsRecord isec_addr) three_records
unfolding func_addr
three_records-IsRecord =
    ((omega arith, omega arith), ((omega arith, omega arith), ((omega arith, omega arith), tt)))

write_table-table_entries_example :
    (pages : List Page) × (table : List ℕ) × (split_pages isec_addr three_records ≡ some pages)
    × (write_table isec_addr 0x1_0000_0000 three_records (7 ∷ []) pages 0x1_0000_0400 ≡ some table)
    × (table_entries table ≡ some (map (entry_of isec_addr 0x1_0000_0000) three_records))
    × (table_lsdas table ≡ some (lsda_pairs isec_addr 0x1_0000_0000 three_records))
write_table-table_entries_example =
    write_table-table_entries isec_addr 0x1_0000_0000 three_records (7 ∷ []) 0x1_0000_0400
      (omega arith) three_records-IsRecord table_short

abbrev exported : List Entry
exported =
    (codes "_a", addr 0 0x1000)
    ∷ (codes "_ab", addr 4 0x2000)
    ∷ (codes "_b", reexport 1 (codes "_c"))
    ∷ []

exported-IsSorted : IsSorted exported
unfolding name_cmp
exported-IsSorted = ((refl, (refl, tt)), ((refl, tt), (tt, tt)))

exported-IsEntry : All IsEntry exported
exported-IsEntry = (
  (
    ((omega arith, omega arith), ((omega arith, omega arith), tt)),
    (omega arith, omega arith, refl),
  ),
  (
    (
      ((omega arith, omega arith), ((omega arith, omega arith), ((omega arith, omega arith), tt))),
      (omega arith, omega arith, refl),
    ),
    (
      (
        ((omega arith, omega arith), ((omega arith, omega arith), tt)),
        (omega arith, omega arith, ((omega arith, omega arith), ((omega arith, omega arith), tt))),
      ),
      tt,
    ),
  ),
)

exported-room :
    (root : TrieNode)
    → build_trie (suc (longest exported)) exported 0 ≡ some root
    → room root < 2 ^ 32
unfolding build_trie longest room uleb_size terminal_size split_groups fixed_size labels_size
    count_edges
exported-room root built = subst (λ (r : TrieNode). room r < 2 ^ 32) (some_inj built) (omega arith)

build_trie-find_example :
    (root : TrieNode) × (build_trie (suc (longest exported)) exported 0 ≡ some root)
    × ((name : List ℕ) → find root name ≡ lookup name exported)
    × IsTrie root
build_trie-find_example = build_trie-find exported exported-IsSorted exported-IsEntry

encode_export_trie-lookup_example :
    (trie : List ℕ) × (encode_export_trie false exported ≡ some trie)
    × ((name : List ℕ) → read_trie (suc (length name)) trie 0 name ≡ some (lookup name exported))
encode_export_trie-lookup_example =
    encode_export_trie-lookup exported exported-IsSorted exported-IsEntry exported-room
