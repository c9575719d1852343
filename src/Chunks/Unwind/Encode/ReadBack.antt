-- ===== src/Chunks/Unwind/Encode/ReadBack.antt =====
-- The table that write_table of macho/chunks/unwind_info.rs makes of the pages of split_pages reads
-- back.
use mold_macho.Chunks.Unwind.{lsda, UnwindRecord, Page, split_pages}
use mold_macho.Chunks.Unwind.Encode.{
  EncodedPage, count_lsda, write_table, image_offset, table_header, encode_pages, push_pages,
}
use mold_macho.Chunks.Unwind.Encode.Arrays.{
  words, drop-past, read32-at, length-words, words-append, read32-words,
}
use mold_macho.Chunks.Unwind.Encode.Entries.{lsda_words, length-lsda_words, push_zeros-words}
use mold_macho.Chunks.Unwind.Encode.Pages2.{IsRecord}
use mold_macho.Chunks.Unwind.Encode.Reader.{
  lsda_pairs, word_pairs, flat, table_entries, entry_of, table_lsdas,
}
use mold_macho.Chunks.Unwind.Encode.Runs.{
  index_words, pages_bytes, HoldsRun, index_entries-HoldsRun, length-index_words,
  encode_pages-HoldsRun,
}
use mold_macho.Chunks.Unwind.Encode.Table.{lsdas_of, push_pages-HoldsRun, push_row}
use mold_macho.Chunks.Unwind.Pages.{split_pages-CoversFrom}
use mold_macho.Prelude.{
  none, ◌<◌, append_assoc, ℕ, ◌^◌, [], ◌≡◌, List, map, ◌+◌, sym, Option, ◌*◌, ◌%◌, arith, ◌++◌, ap,
  ◌∷◌, some, ◌∙◌, drop, length, refl, append-nil, ap₂, length-append, length-map, ◌-◌, ◌/◌,
  get_elem?, zero,
}
use mold_macho.Prelude.Bytes.{All}
use mold_macho.Prelude.Slices.{drop_add, get_elem?-drop, drop_all}
use mold_macho.Util.Words.{to_le_bytes, length-to_le_bytes, push32, read32}
use native.Mathlib.Nat.{mod-eq_of_lt}

abbrev IsPair : ℕ × ℕ → Type 0
IsPair (a, b) = (a < 2 ^ 32) × (b < 2 ^ 32)

word_pairs-flat :
    (table : List ℕ) (at : ℕ) (rest : List ℕ) (pairs : List (ℕ × ℕ))
    → All IsPair pairs
    → drop at table ≡ words (flat pairs) ++ rest
    → word_pairs table at (length pairs) ≡ some pairs
unfolding word_pairs
word_pairs-flat table at rest [] small e = refl
word_pairs-flat table at rest ((a, b) ∷ pairs) ((ha, hb), small) e =
    let more = words (flat pairs) in
    let e0 : drop at table ≡ to_le_bytes 4 a ++ (to_le_bytes 4 b ++ (more ++ rest)) =
      e
      ∙ (append_assoc (to_le_bytes 4 a) (to_le_bytes 4 b ++ more) rest
          ∙ ap (λ l. to_le_bytes 4 a ++ l) (append_assoc (to_le_bytes 4 b) more rest)) in
    let e1 =
      drop-past table at 4 (to_le_bytes 4 a) (to_le_bytes 4 b ++ (more ++ rest)) e0
        (sym (length-to_le_bytes 4 a)) in
    let e2 =
      drop-past table (at + 4) 4 (to_le_bytes 4 b) (more ++ rest) e1
        (sym (length-to_le_bytes 4 b)) in
    let step : at + 4 + 4 ≡ at + 8 = omega arith in
    rw
      (
        read32-at table at a (to_le_bytes 4 b ++ (more ++ rest)) e0 ha,
        read32-at table (at + 4) b (more ++ rest) e1 hb,
        word_pairs-flat table (at + 8) rest pairs small (rw step at e2),
      )
      refl

lsda_pairs_row :
    (isec_addr : ℕ → ℕ) (base : ℕ) (rec : UnwindRecord) (span : List UnwindRecord)
    (row : Option (ℕ × ℕ))
    → lsda rec ≡ row
    → All IsPair (lsda_pairs isec_addr base span)
    → All IsPair (lsda_pairs isec_addr base (rec ∷ span))
unfolding lsda_pairs
lsda_pairs_row isec_addr base rec span none e ih = rw (lsda_pairs, e) ih
lsda_pairs_row isec_addr base rec span (some (isec, off)) e ih =
    rw (lsda_pairs, e) ((omega arith, omega arith), ih)

lsda_pairs-IsPair :
    (isec_addr : ℕ → ℕ) (base : ℕ) (span : List UnwindRecord)
    → All IsPair (lsda_pairs isec_addr base span)
lsda_pairs-IsPair isec_addr base [] = unfold lsda_pairs in tt
lsda_pairs-IsPair isec_addr base (rec ∷ span) =
    lsda_pairs_row isec_addr base rec span (lsda rec) refl (lsda_pairs-IsPair isec_addr base span)

length-flat : (pairs : List (ℕ × ℕ)) → length (flat pairs) ≡ 2 * length pairs
length-flat [] = refl
length-flat ((a, b) ∷ pairs) = omega (arith, length-flat pairs)

-- The words of a table's header, and those of the index with its last row.
abbrev header_words : ℕ → ℕ → List ℕ
header_words num_personalities num_pages =
    1
    ∷ 28
    ∷ 0
    ∷ 28
    ∷ (num_personalities % 2 ^ 32)
    ∷ ((28 + num_personalities * 4) % 2 ^ 32)
    ∷ ((num_pages + 1) % 2 ^ 32)
    ∷ []

abbrev row_words : ℕ → ℕ → List EncodedPage → ℕ → ℕ → List ℕ
row_words lsda_off page2_off outs last lsda_end =
    index_words lsda_off page2_off outs ++ last ∷ 0 ∷ (lsda_end % 2 ^ 32) ∷ []

-- The bytes of a table: `zeros` are the personalities' cells.
abbrev table_of : List ℕ → List ℕ → List ℕ → List ℕ → List ℕ → List ℕ
table_of header zeros rows lsdas pages =
    words header ++ (words zeros ++ (words rows ++ (lsdas ++ pages)))

first_row :
    (isec_addr : ℕ → ℕ) (base : ℕ) (records : List UnwindRecord) (outs : List EncodedPage)
    (lsda_off page2_off last : ℕ)
    → HoldsRun isec_addr base records outs
    → lsda_off + length (lsdas_of isec_addr base records) < 2 ^ 32
    → get_elem?
        (row_words lsda_off page2_off outs last
          (lsda_off + length (lsdas_of isec_addr base records)))
        2
      ≡ some lsda_off
first_row isec_addr base records [] lsda_off page2_off last run h =
    rw run (ap some (unfold lsda_pairs in omega arith))
first_row isec_addr base records (out ∷ outs) lsda_off page2_off last run h =
    ap some (mod-eq_of_lt (omega arith))

table_header-words : (np n : ℕ) → table_header np n ≡ words (header_words np n)
unfolding table_header push32 to_le_bytes
table_header-words np n = refl

module _ (isec_addr : ℕ → ℕ) (base : ℕ) (records : List UnwindRecord) (personalities : List ℕ)
    (pages : List Page) (last : ℕ) (outs : List EncodedPage)
    (run : HoldsRun isec_addr base records outs) (len : length outs ≡ length pages) where
  abbrev lsda_off : ℕ
  lsda_off = 28 + length personalities * 4 + (length pages + 1) * 12

  abbrev page2_off : ℕ
  page2_off = lsda_off + count_lsda records * 8

  abbrev lsdas : List ℕ
  lsdas = lsdas_of isec_addr base records

  abbrev zeros : List ℕ
  zeros = map (λ (p : ℕ). 0) personalities

  abbrev rows : List ℕ
  rows = row_words lsda_off page2_off outs (image_offset base (last + 1)) (lsda_off + length lsdas)

  abbrev table : List ℕ
  table =
      table_of (header_words (length personalities) (length pages)) zeros rows lsdas
        (pages_bytes outs)

  walked :
      push_pages lsda_off page2_off (record { page1 = []; lsdas = []; pages2 = [] }) outs ≡ record {
        page1 = words (index_words lsda_off page2_off outs);
        lsdas = lsdas;
        pages2 = pages_bytes outs;
      }
  walked =
      let z : lsda_off + 0 ≡ lsda_off = omega arith in
      let z' : page2_off + 0 ≡ page2_off = omega arith in
      let e =
        push_pages-HoldsRun isec_addr base lsda_off page2_off
          (record { page1 = []; lsdas = []; pages2 = [] }) records outs run in
      rw (z, z') at e

  write_table-table :
      encode_pages isec_addr base records pages ≡ some outs
      → write_table isec_addr base records personalities pages last ≡ some table
  unfolding write_table
  write_table-table e =
      let header = table_header (length personalities) (length pages) in
      let index = index_words lsda_off page2_off outs in
      let lsda_end = (lsda_off + length lsdas) % 2 ^ 32 in
      let last_row = image_offset base (last + 1) ∷ 0 ∷ lsda_end ∷ [] in
      let body = lsdas ++ pages_bytes outs in
      let ended : push32 (push32 (push32 (words index) (image_offset base (last + 1))) 0) lsda_end
          ≡ words (index ++ last_row) =
        sym (
          append-nil
            (push32 (push32 (push32 (words index) (image_offset base (last + 1))) 0) lsda_end))
        ∙ (push_row (words index) (image_offset base (last + 1)) 0 lsda_end []
            ∙ sym (words-append index last_row)) in
      rw (e, walked)
        (ap some (
          ap₂ ◌++◌
            (push_zeros-words header personalities
              ∙ ap (λ l. l ++ words zeros)
                  (table_header-words (length personalities) (length pages)))
            (ap (λ l. l ++ body) ended)
          ∙ append_assoc (words (header_words (length personalities) (length pages))) (words zeros)
              (words rows ++ body)))

  length-lsdas : length lsdas ≡ 8 * count_lsda records
  length-lsdas = omega (
    arith,
    length-words (lsda_words isec_addr base records),
    length-lsda_words isec_addr base records,
  )

  length-rows : length (words rows) ≡ (length pages + 1) * 12
  length-rows =
      let index = index_words lsda_off page2_off outs in
      omega (
        arith,
        len,
        length-words rows,
        length-append index
            (image_offset base (last + 1) ∷ 0 ∷ (lsda_off + length lsdas) % 2 ^ 32 ∷ []),
        length-index_words lsda_off page2_off outs,
      )

  length-zeros : length (words zeros) ≡ length personalities * 4
  length-zeros = omega (arith, length-words zeros, length-map personalities (λ p. zero))

  length-table : length table ≡ page2_off + length (pages_bytes outs)
  unfolding to_le_bytes count_lsda
  length-table = omega (
    arith,
    length-rows,
    length-zeros,
    length-lsdas,
    length-append (words zeros) (words rows ++ (lsdas ++ pages_bytes outs)),
    length-append (words rows) (lsdas ++ pages_bytes outs),
    length-append lsdas (pages_bytes outs),
  )

  -- Where the index, the LSDA rows and the pages stand.
  at_rows : drop (28 + length personalities * 4) table ≡ words rows ++ (lsdas ++ pages_bytes outs)
  unfolding to_le_bytes
  at_rows =
      drop-past table 28 (length personalities * 4) (words zeros)
        (words rows ++ (lsdas ++ pages_bytes outs)) refl (sym length-zeros)

  at_lsdas : drop lsda_off table ≡ lsdas ++ pages_bytes outs
  at_lsdas =
      drop-past table (28 + length personalities * 4) ((length pages + 1) * 12) (words rows)
        (lsdas ++ pages_bytes outs) at_rows (sym length-rows)

  at_pages : drop page2_off table ≡ pages_bytes outs
  at_pages =
      drop-past table lsda_off (count_lsda records * 8) lsdas (pages_bytes outs) at_lsdas
        (omega (arith, length-lsdas))

  module _ (fits : length table < 2 ^ 32) where
    header_read :
        (read32 (drop 20 table) ≡ some (28 + length personalities * 4))
        × (read32 (drop 24 table) ≡ some (length pages + 1))
    header_read =
        let size = length-table in
        let header = header_words (length personalities) (length pages) in
        let rest = words zeros ++ (words rows ++ (lsdas ++ pages_bytes outs)) in
        let at : (28 + length personalities * 4) % 2 ^ 32 ≡ 28 + length personalities * 4 =
          mod-eq_of_lt (omega arith) in
        let count : (length pages + 1) % 2 ^ 32 ≡ length pages + 1 = mod-eq_of_lt (omega arith) in
        (
          read32-words header rest 5 (28 + length personalities * 4) (ap some at) (omega arith),
          read32-words header rest 6 (length pages + 1) (ap some count) (omega arith),
        )

    entries_read : table_entries table ≡ some (map (entry_of isec_addr base) records)
    unfolding table_entries
    entries_read =
        let size = length-table in
        let count : length pages + 1 - 1 ≡ length outs = omega (arith, len) in
        let index = index_words lsda_off page2_off outs in
        let last_row = image_offset base (last + 1) ∷ 0 ∷ (lsda_off + length lsdas) % 2 ^ 32 ∷ [] in
        let body = lsdas ++ pages_bytes outs in
        let at_index : drop (28 + length personalities * 4) table
            ≡ words index ++ (words last_row ++ body) =
          at_rows
          ∙ (ap (λ l. l ++ body) (words-append index last_row)
              ∙ append_assoc (words index) (words last_row) body) in
        rw (header_read.0, header_read.1, count)
          (index_entries-HoldsRun isec_addr base table (28 + length personalities * 4) lsda_off
            page2_off (words last_row ++ body) [] records outs run at_index
            (at_pages ∙ sym (append-nil (pages_bytes outs))) (omega arith))

    -- The word of the index that says where the LSDA rows start.
    first_lsda : get_elem? rows 2 ≡ some lsda_off
    first_lsda =
        let size = length-table in
        first_row isec_addr base records outs lsda_off page2_off (image_offset base (last + 1)) run
          (omega (arith, length-lsdas))

    last_lsda : get_elem? rows (3 * length pages + 2) ≡ some (lsda_off + length lsdas)
    last_lsda =
        let size = length-table in
        let index = index_words lsda_off page2_off outs in
        let n : length index ≡ 3 * length pages =
          omega (arith, len, length-index_words lsda_off page2_off outs) in
        let small : (lsda_off + length lsdas) % 2 ^ 32 ≡ lsda_off + length lsdas =
          mod-eq_of_lt (omega (arith, length-lsdas)) in
        let last_row = image_offset base (last + 1) ∷ 0 ∷ (lsda_off + length lsdas) % 2 ^ 32 ∷ [] in
        sym (get_elem?-drop (3 * length pages) rows 2)
        ∙ ap (λ l. get_elem? l 2) (drop_all (3 * length pages) index last_row (sym n))
        ∙ ap some small

    lsdas_read : table_lsdas table ≡ some (lsda_pairs isec_addr base records)
    unfolding table_lsdas
    lsdas_read =
        let size = length-table in
        let body = lsdas ++ pages_bytes outs in
        let start : read32 (drop (28 + length personalities * 4 + 8) table) ≡ some lsda_off =
          ap read32 (sym (drop_add (28 + length personalities * 4) 8 table) ∙ ap (drop 8) at_rows)
          ∙ read32-words rows body 2 lsda_off first_lsda (omega arith) in
        let row : 28 + length personalities * 4 + 12 * (length pages + 1 - 1) + 8
            ≡ 28 + length personalities * 4 + 4 * (3 * length pages + 2) =
          omega arith in
        let stop : read32 (drop (28 + length personalities * 4 + 4 * (3 * length pages + 2)) table)
            ≡ some (lsda_off + length lsdas) =
          ap read32 (
            sym (drop_add (28 + length personalities * 4) (4 * (3 * length pages + 2)) table)
            ∙ ap (drop (4 * (3 * length pages + 2))) at_rows)
          ∙ read32-words rows body (3 * length pages + 2) (lsda_off + length lsdas) last_lsda
              (omega (arith, length-lsdas)) in
        let count : (lsda_off + length lsdas - lsda_off) / 8
            ≡ length (lsda_pairs isec_addr base records) =
          omega (
            arith,
            length-words (lsda_words isec_addr base records),
            length-flat (lsda_pairs isec_addr base records),
          ) in
        rw (header_read.0, header_read.1, start, row, stop, count)
          (word_pairs-flat table lsda_off (pages_bytes outs) (lsda_pairs isec_addr base records)
            (lsda_pairs-IsPair isec_addr base records) at_lsdas)

-- Where the pages are those of `split_pages`, the records' addresses are 64-bit and their encodings
-- 32-bit numbers, and the table is shorter than 4 GB: the table is made, and an unwinder that reads
-- it finds each record's function at its image offset with the record's encoding, in the order of
-- the records, and in the LSDA index each function that has an LSDA with the LSDA's image offset.
pub write_table-table_entries :
    (isec_addr : ℕ → ℕ) (base : ℕ) (records : List UnwindRecord) (personalities : List ℕ) (last : ℕ)
    → base < 2 ^ 64
    → All (IsRecord isec_addr) records
    → ((pages : List Page) (table : List ℕ)
        → split_pages isec_addr records ≡ some pages
        → write_table isec_addr base records personalities pages last ≡ some table
        → length table < 2 ^ 32)
    → (pages : List Page) × (table : List ℕ) × (split_pages isec_addr records ≡ some pages)
      × (write_table isec_addr base records personalities pages last ≡ some table)
      × (table_entries table ≡ some (map (entry_of isec_addr base) records))
      × (table_lsdas table ≡ some (lsda_pairs isec_addr base records))
write_table-table_entries isec_addr base records personalities last hb recs short =
    let (pages, split, covers) = split_pages-CoversFrom isec_addr records in
    let (outs, encoded, run, len) =
      encode_pages-HoldsRun isec_addr base records 0 records pages hb refl covers recs in
    let bytes = table isec_addr base records personalities pages last outs run len in
    let made =
      write_table-table isec_addr base records personalities pages last outs run len encoded in
    let fits = short pages bytes split made in
    (
      pages,
      bytes,
      split,
      made,
      entries_read isec_addr base records personalities pages last outs run len fits,
      lsdas_read isec_addr base records personalities pages last outs run len fits,
    )
