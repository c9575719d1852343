-- ===== src/Chunks/Unwind/Encode/Pages2.antt =====
-- A second-level page of macho/chunks/unwind_info.rs reads back.
use mathlib.Core.Path.{subst}
use mold_macho.Chunks.Unwind.{UnwindRecord, func_addr}
use mold_macho.Chunks.Unwind.Encode.{
  image_offset, page_header, push_encodings, push_lsda, EncodedPage, encode_span,
}
use mold_macho.Chunks.Unwind.Encode.Arrays.{
  read_le-here, read32-at, read32-words, drop-past, words, length-words,
}
use mold_macho.Chunks.Unwind.Encode.Entries.{
  Entries, push_lsda-words, push_encodings-words, push_entries-Entries, lsda_words, length-Entries,
}
use mold_macho.Chunks.Unwind.Encode.Reader.{entry_of, page_entries, read_page}
use mold_macho.Chunks.Unwind.Pages.{WithinPage, IsHeld}
use mold_macho.Prelude.{
  ◌%◌, ◌*◌, List, some, sym, ◌++◌, ◌≡◌, append_assoc, ◌-◌, ◌∙◌, ◌/◌, map, ap, ℕ, arith, [], ◌<◌,
  length, refl, ◌+◌, ◌^◌, ◌∷◌, drop,
}
use mold_macho.Prelude.Bytes.{All}
use mold_macho.Prelude.Slices.{drop_add}
use mold_macho.Util.Words.{push32, read32, to_le_bytes, push16, read16}

-- A record of 64-bit addresses and a 32-bit encoding.
abbrev pub IsRecord : (ℕ → ℕ) → UnwindRecord → Type 0
IsRecord isec_addr rec = (func_addr isec_addr rec < 2 ^ 64) × (rec.encoding < 2 ^ 32)

-- The offset of a function is that of its page's first one and its offset from there.
image_offset-page_offset :
    (base page_base addr : ℕ)
    → base < 2 ^ 64
    → page_base < 2 ^ 64
    → addr < 2 ^ 64
    → (image_offset base page_base + (addr + 2 ^ 64 - page_base) % 2 ^ 64) % 2 ^ 32
      ≡ image_offset base addr
image_offset-page_offset base page_base addr hb hp ha = omega arith

header_reads :
    (n e : ℕ) (rest : List ℕ)
    → n < 2 ^ 16
    → 12 + n * 4 < 2 ^ 16
    → (read32 (page_header n e ++ rest) ≡ some 3)
      × (read16 (drop 4 (page_header n e ++ rest)) ≡ some 12)
      × (read16 (drop 6 (page_header n e ++ rest)) ≡ some n)
      × (read16 (drop 8 (page_header n e ++ rest)) ≡ some (12 + n * 4))
      × (drop 12 (page_header n e ++ rest) ≡ rest)
unfolding page_header push16 push32 to_le_bytes read16 read32
header_reads n e rest hn hs =
    let small : n % 2 ^ 16 % 256 ^ 2 ≡ n = omega arith in
    let offset : (12 + n * 4) % 2 ^ 16 % 256 ^ 2 ≡ 12 + n * 4 = omega arith in
    let last = to_le_bytes 2 (e % 2 ^ 16) ++ rest in
    let after_count = to_le_bytes 2 ((12 + n * 4) % 2 ^ 16) ++ last in
    (
      read_le-here 4 3 (to_le_bytes 2 12 ++ (to_le_bytes 2 (n % 2 ^ 16) ++ after_count)),
      read_le-here 2 12 (to_le_bytes 2 (n % 2 ^ 16) ++ after_count),
      read_le-here 2 (n % 2 ^ 16) after_count ∙ ap some small,
      read_le-here 2 ((12 + n * 4) % 2 ^ 16) last ∙ ap some offset,
      refl,
    )

module _ (isec_addr : ℕ → ℕ) (base page_base : ℕ) (encs : List ℕ) (base-lt : base < 2 ^ 64)
    (page_base-lt : page_base < 2 ^ 64) where
  pub page_entries-Entries :
      (page : List ℕ) (encs_at at : ℕ) (tail rest : List ℕ) (span : List UnwindRecord) (ws : List ℕ)
      → drop encs_at page ≡ words encs ++ tail
      → Entries isec_addr page_base encs span ws
      → All (IsRecord isec_addr) span
      → drop at page ≡ words ws ++ rest
      → page_entries page encs_at (image_offset base page_base) at (length span)
        ≡ some (map (entry_of isec_addr base) span)
  unfolding page_entries to_le_bytes
  page_entries-Entries page encs_at at tail rest [] ws table entries recs e = refl
  page_entries-Entries page encs_at at tail rest (rec ∷ span) ws table
        (w, ws', we, (small, off, enc), more) ((near, enc-lt), recs) e =
      let here : drop at page ≡ to_le_bytes 4 w ++ (words ws' ++ rest) =
        e ∙ (ap (λ l. words l ++ rest) we ∙ append_assoc (to_le_bytes 4 w) (words ws') rest) in
      let next = drop-past page at 4 (to_le_bytes 4 w) (words ws' ++ rest) here refl in
      let index = w / 2 ^ 24 in
      let looked : read32 (drop (encs_at + 4 * index) page) ≡ some rec.encoding =
        ap read32 (sym (drop_add encs_at (4 * index) page) ∙ ap (drop (4 * index)) table)
        ∙ read32-words encs tail index rec.encoding enc enc-lt in
      let addr =
        image_offset-page_offset base page_base (func_addr isec_addr rec) base-lt page_base-lt
          near in
      rw
        (
          read32-at page at w (words ws' ++ rest) here small,
          looked,
          page_entries-Entries page encs_at (at + 4) tail rest span ws' table more recs next,
          off,
          addr,
        )
        refl

-- An encoded page reads back as its records' entries, and its LSDA rows are the records'.
abbrev pub IsPageOf : (ℕ → ℕ) → ℕ → List UnwindRecord → EncodedPage → Type 0
IsPageOf isec_addr base span out =
    ((tail : List ℕ)
      → read_page out.first (out.page2 ++ tail) ≡ some (map (entry_of isec_addr base) span))
    × (out.lsda_rows ≡ words (lsda_words isec_addr base span))
    × (out.first < 2 ^ 32)

pub encode_span-IsPageOf :
    (isec_addr : ℕ → ℕ) (base : ℕ) (head : UnwindRecord) (span : List UnwindRecord) (encs : List ℕ)
    → base < 2 ^ 64
    → WithinPage (length (head ∷ span)) encs
    → All (IsHeld isec_addr (func_addr isec_addr head) encs) (head ∷ span)
    → All (IsRecord isec_addr) (head ∷ span)
    → (out : EncodedPage) × (encode_span isec_addr base head span encs ≡ some out)
      × IsPageOf isec_addr base (head ∷ span) out
unfolding encode_span
encode_span-IsPageOf isec_addr base head span encs hb (few, fits) held recs =
    let page_base = func_addr isec_addr head in
    let n = length (head ∷ span) in
    let header = page_header n (length encs) in
    let (ws, e, entries) =
      push_entries-Entries isec_addr page_base encs (head ∷ span) header few held in
    let first = image_offset base page_base in
    let page2 = push_encodings (header ++ words ws) encs in
    let reads = λ (tail : List ℕ).
      let body = words ws ++ (words encs ++ tail) in
      let whole : page2 ++ tail ≡ header ++ body =
        ap (λ l. l ++ tail) (push_encodings-words (header ++ words ws) encs)
        ∙ (append_assoc (header ++ words ws) (words encs) tail
            ∙ append_assoc header (words ws) (words encs ++ tail)) in
      let (kind, at, count, encs_at, rest) =
        header_reads n (length encs) body (omega arith) (omega arith) in
      let counted = length-Entries isec_addr page_base encs (head ∷ span) ws entries in
      let table =
        drop-past (header ++ body) 12 (n * 4) (words ws) (words encs ++ tail) rest
          (omega (arith, length-words ws)) in
      let read =
        page_entries-Entries isec_addr base page_base encs hb recs.0.0 (header ++ body) (12 + n * 4)
          12 tail (words encs ++ tail) (head ∷ span) ws table entries recs rest in
      (subst
        (λ (p : List ℕ). read_page first p ≡ some (map (entry_of isec_addr base) (head ∷ span)))
        (sym whole) (unfold read_page in rw (kind, at, count, encs_at, read) refl)) in
    (
      record {
        page2 = page2;
        lsda_rows = push_lsda isec_addr base [] (head ∷ span);
        first = first;
      },
      rw e refl,
      (reads, push_lsda-words isec_addr base (head ∷ span) [], omega arith),
    )
