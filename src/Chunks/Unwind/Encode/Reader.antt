-- ===== src/Chunks/Unwind/Encode/Reader.antt =====
-- A reader of the compact unwind table, for macho/chunks/unwind_info.rs: what an unwinder finds in
-- the bytes. A page's entries are its functions' image offsets and encodings.
use mold_macho.Chunks.Unwind.{func_addr, UnwindRecord, lsda}
use mold_macho.Chunks.Unwind.Encode.{image_offset}
use mold_macho.Prelude.{
  ◌++◌, ◌-◌, ◌*◌, zero, Option, List, ℕ, ◌+◌, drop, ◌∷◌, ◌==◌, ◌^◌, some, if◌then◌else◌, ◌%◌, suc,
  ◌/◌, [], none,
}
use mold_macho.Prelude.Fallible.{◌>>=◌}
use mold_macho.Util.Words.{read16, read32}

-- `at` is the offset of the next entry in the page, `encs_at` that of the page's encodings.
unfoldable pub page_entries : List ℕ → ℕ → ℕ → ℕ → ℕ → Option (List (ℕ × ℕ))
unfolding read32
page_entries page encs_at first at zero = some []
page_entries page encs_at first at (suc n) = read32 (drop at page) >>= (λ w.
    read32 (drop (encs_at + 4 * (w / 2 ^ 24)) page) >>= (λ enc.
      page_entries page encs_at first (at + 4) n
      >>= (λ entries. some (((first + w % 2 ^ 24) % 2 ^ 32, enc) ∷ entries))))

-- `first` is the image offset of the page's first function; `none` is a page of another kind.
unfoldable pub read_page : ℕ → List ℕ → Option (List (ℕ × ℕ))
unfolding page_entries read16 read32
read_page first page = read32 page >>= (λ kind. read16 (drop 4 page) >>= (λ entries_at.
    read16 (drop 6 page) >>= (λ count. read16 (drop 8 page) >>= (λ encs_at.
      if kind == 3 then page_entries page encs_at first entries_at count else none))))

-- The rows of the first-level index from offset `at` on, each with its page.
unfoldable pub index_entries : List ℕ → ℕ → ℕ → Option (List (ℕ × ℕ))
unfolding read_page read32
index_entries table at zero = some []
index_entries table at (suc n) = read32 (drop at table) >>= (λ first.
    read32 (drop (at + 4) table) >>= (λ page_at.
      read_page first (drop page_at table)
      >>= (λ entries. index_entries table (at + 12) n >>= (λ more. some (entries ++ more)))))

-- The functions of a table, with their encodings: the last row of the index has no page.
unfoldable pub table_entries : List ℕ → Option (List (ℕ × ℕ))
unfolding index_entries read32
table_entries table =
    read32 (drop 20 table)
    >>= (λ at. read32 (drop 24 table) >>= (λ rows. index_entries table at (rows - 1)))

-- Pairs of words.
unfoldable pub word_pairs : List ℕ → ℕ → ℕ → Option (List (ℕ × ℕ))
unfolding read32
word_pairs table at zero = some []
word_pairs table at (suc n) = read32 (drop at table) >>= (λ a.
    read32 (drop (at + 4) table)
    >>= (λ b. word_pairs table (at + 8) n >>= (λ pairs. some ((a, b) ∷ pairs))))

-- The LSDA index stands from where the first row of the first-level index says to where the last
-- one does.
unfoldable pub table_lsdas : List ℕ → Option (List (ℕ × ℕ))
unfolding word_pairs read32
table_lsdas table = read32 (drop 20 table) >>= (λ at. read32 (drop 24 table) >>= (λ rows.
    read32 (drop (at + 8) table) >>= (λ start.
      read32 (drop (at + 12 * (rows - 1) + 8) table)
      >>= (λ stop. word_pairs table start ((stop - start) / 8)))))

-- What the table is to say of a record.
abbrev pub entry_of : (ℕ → ℕ) → ℕ → UnwindRecord → ℕ × ℕ
entry_of isec_addr base rec = (image_offset base (func_addr isec_addr rec), rec.encoding)

-- What the LSDA index is to say of the records.
unfoldable pub lsda_pairs : (ℕ → ℕ) → ℕ → List UnwindRecord → List (ℕ × ℕ)
unfolding lsda func_addr
lsda_pairs isec_addr base [] = []
lsda_pairs isec_addr base (rec ∷ records) = elim (lsda rec) [
  | none ↦ lsda_pairs isec_addr base records
  | some (isec, off) ↦
      (image_offset base (func_addr isec_addr rec), image_offset base (isec_addr isec + off))
      ∷ lsda_pairs isec_addr base records
]

abbrev pub flat : List (ℕ × ℕ) → List ℕ
flat [] = []
flat ((a, b) ∷ pairs) = a ∷ b ∷ flat pairs
