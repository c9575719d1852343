-- ===== src/Chunks/Unwind/Encode/Runs.antt =====
-- The encoded pages of macho/chunks/unwind_info.rs one after another, and the index that leads to
-- them.
use mathlib.Core.List.{map-append}
use mathlib.Core.Path.{subst}
use mold_macho.Chunks.Unwind.{UnwindRecord, Page, func_addr}
use mold_macho.Chunks.Unwind.Encode.{span_of, EncodedPage, encode_pages, encode_page}
use mold_macho.Chunks.Unwind.Encode.Arrays.{drop-past, read32-at, words}
use mold_macho.Chunks.Unwind.Encode.Pages2.{IsPageOf, encode_span-IsPageOf, IsRecord}
use mold_macho.Chunks.Unwind.Encode.Reader.{index_entries, entry_of}
use mold_macho.Chunks.Unwind.Pages.{IsHeld, WithinPage, CoversFrom}
use mold_macho.Prelude.{
  ap, ℕ, length, ◌≡◌, some, [], ◌+◌, ◌∷◌, take, ◌-◌, ◌≤◌, drop, ◌<◌, ◌++◌, arith, List, length-drop,
  map, refl, ◌*◌, ◌^◌, append_assoc, length-append, sym, ◌%◌, suc, ◌∙◌, take-append-drop,
  length-take,
}
use mold_macho.Prelude.Bytes.{All-drop, All-take, All}
use mold_macho.Prelude.Slices.{drop_add}
use mold_macho.Util.Words.{to_le_bytes, length-to_le_bytes}
use native.Mathlib.Nat.{mod-eq_of_lt}

-- Encoded pages that hold the records in order.
abbrev pub HoldsRun : (ℕ → ℕ) → ℕ → List UnwindRecord → List EncodedPage → Type 0
HoldsRun isec_addr base records [] = records ≡ []
HoldsRun isec_addr base records (out ∷ outs) =
    (span : List UnwindRecord) × (rest : List UnwindRecord) × (records ≡ span ++ rest)
    × IsPageOf isec_addr base span out
    × HoldsRun isec_addr base rest outs

-- The slice of a page is what the pages not yet encoded start with.
span_of-take :
    (all records : List UnwindRecord) (page : Page) (start n : ℕ)
    → drop start all ≡ records
    → page.start ≡ start
    → page.stop ≡ start + n
    → 0 < n
    → n ≤ length records
    → span_of all page ≡ some (take n records)
unfolding span_of
span_of-take all records page start n e h h' some_n fits =
    let len = length-drop start all in
    let reach : start + n ≤ length all = omega (arith, ap length e) in
    let size : start + n - start ≡ n = omega arith in ground (arith, h, h', e)

pub encode_pages-HoldsRun :
    (isec_addr : ℕ → ℕ) (base : ℕ) (all : List UnwindRecord) (start : ℕ)
    (records : List UnwindRecord) (pages : List Page)
    → base < 2 ^ 64
    → drop start all ≡ records
    → CoversFrom isec_addr start records pages
    → All (IsRecord isec_addr) records
    → (outs : List EncodedPage) × (encode_pages isec_addr base all pages ≡ some outs)
      × HoldsRun isec_addr base records outs
      × (length outs ≡ length pages)
unfolding encode_pages encode_page
encode_pages-HoldsRun isec_addr base all start records [] hb e covers recs =
    ([], refl, covers, refl)
encode_pages-HoldsRun isec_addr base all start records (page ∷ pages) hb e
      (n, rec, rest, front, hs, ht, fits, within, held, covers) recs =
    let count : n ≡ length (rec ∷ rest) = omega (arith, length-take n records, ap length front) in
    let spanned =
      span_of-take all records page start n e hs ht (omega arith) fits ∙ ap some front in
    let (out, made, is_page) =
      encode_span-IsPageOf isec_addr base rec rest page.encodings hb
        (subst (λ k. WithinPage k page.encodings) count within)
        (subst (All (IsHeld isec_addr (func_addr isec_addr rec) page.encodings)) front held)
        (subst (All (IsRecord isec_addr)) front (All-take (IsRecord isec_addr) n records recs)) in
    let (outs, more, run, len) =
      encode_pages-HoldsRun isec_addr base all (start + n) (drop n records) pages hb
        (sym (drop_add start n all) ∙ ap (drop n) e) covers
        (All-drop (IsRecord isec_addr) n records recs) in
    (
      out ∷ outs,
      rw (spanned, made, more) refl,
      (
        rec ∷ rest,
        drop n records,
        sym (take-append-drop n records) ∙ ap (λ l. l ++ drop n records) front,
        is_page,
        run,
      ),
      ap suc len,
    )

-- The words of the index's rows, the pages starting at `page_at` and their LSDA rows at `lsda_at`.
abbrev pub index_words : ℕ → ℕ → List EncodedPage → List ℕ
index_words lsda_at page_at [] = []
index_words lsda_at page_at (out ∷ outs) =
    out.first
    ∷ (page_at % 2 ^ 32)
    ∷ (lsda_at % 2 ^ 32)
    ∷ index_words (lsda_at + length out.lsda_rows) (page_at + length out.page2) outs

pub length-index_words :
    (lsda_at page_at : ℕ) (outs : List EncodedPage)
    → length (index_words lsda_at page_at outs) ≡ 3 * length outs
length-index_words lsda_at page_at [] = refl
length-index_words lsda_at page_at (out ∷ outs) =
    omega
      (arith, length-index_words (lsda_at + length out.lsda_rows) (page_at + length out.page2) outs)

abbrev pub pages_bytes : List EncodedPage → List ℕ
pages_bytes [] = []
pages_bytes (out ∷ outs) = out.page2 ++ pages_bytes outs

-- The index reads back as the entries of the records that the pages hold.
pub index_entries-HoldsRun :
    (isec_addr : ℕ → ℕ) (base : ℕ) (table : List ℕ) (at lsda_at page_at : ℕ) (rest tail : List ℕ)
    (records : List UnwindRecord) (outs : List EncodedPage)
    → HoldsRun isec_addr base records outs
    → drop at table ≡ words (index_words lsda_at page_at outs) ++ rest
    → drop page_at table ≡ pages_bytes outs ++ tail
    → page_at + length (pages_bytes outs) < 2 ^ 32
    → index_entries table at (length outs) ≡ some (map (entry_of isec_addr base) records)
unfolding index_entries
index_entries-HoldsRun isec_addr base table at lsda_at page_at rest tail records [] run e p h =
    rw run refl
index_entries-HoldsRun isec_addr base table at lsda_at page_at rest tail records (out ∷ outs)
      (span, records', re, (reads, rows, first-lt), run) e p h =
    let lsda_at' = lsda_at + length out.lsda_rows in
    let page_at' = page_at + length out.page2 in
    let sizes = length-append out.page2 (pages_bytes outs) in
    let here : page_at % 2 ^ 32 ≡ page_at = mod-eq_of_lt (omega arith) in
    let more = words (index_words lsda_at' page_at' outs) in
    let last = to_le_bytes 4 (lsda_at % 2 ^ 32) ++ more in
    let row : words (index_words lsda_at page_at (out ∷ outs)) ++ rest
        ≡ to_le_bytes 4 out.first
          ++ (to_le_bytes 4 page_at ++ (to_le_bytes 4 (lsda_at % 2 ^ 32) ++ (more ++ rest))) =
      rw here (
        append_assoc (to_le_bytes 4 out.first) (to_le_bytes 4 page_at ++ last) rest
        ∙ ap (λ l. to_le_bytes 4 out.first ++ l)
            (append_assoc (to_le_bytes 4 page_at) last rest
              ∙ ap (λ l. to_le_bytes 4 page_at ++ l)
                  (append_assoc (to_le_bytes 4 (lsda_at % 2 ^ 32)) more rest))) in
    let e0 = e ∙ row in
    let e1 =
      drop-past table at 4 (to_le_bytes 4 out.first)
        (to_le_bytes 4 page_at ++ (to_le_bytes 4 (lsda_at % 2 ^ 32) ++ (more ++ rest))) e0
        (sym (length-to_le_bytes 4 out.first)) in
    let e2 =
      drop-past table (at + 4) 4 (to_le_bytes 4 page_at)
        (to_le_bytes 4 (lsda_at % 2 ^ 32) ++ (more ++ rest)) e1
        (sym (length-to_le_bytes 4 page_at)) in
    let e3 =
      drop-past table (at + 4 + 4) 4 (to_le_bytes 4 (lsda_at % 2 ^ 32)) (more ++ rest) e2
        (sym (length-to_le_bytes 4 (lsda_at % 2 ^ 32))) in
    let step : at + 4 + 4 + 4 ≡ at + 12 = omega arith in
    let page : drop page_at table ≡ out.page2 ++ (pages_bytes outs ++ tail) =
      p ∙ append_assoc out.page2 (pages_bytes outs) tail in
    let next =
      drop-past table page_at (length out.page2) out.page2 (pages_bytes outs ++ tail) page refl in
    rw
      (
        read32-at table at out.first
            (to_le_bytes 4 page_at ++ (to_le_bytes 4 (lsda_at % 2 ^ 32) ++ (more ++ rest))) e0
            first-lt,
        read32-at table (at + 4) page_at (to_le_bytes 4 (lsda_at % 2 ^ 32) ++ (more ++ rest)) e1
            (omega arith),
        page,
        reads (pages_bytes outs ++ tail),
        index_entries-HoldsRun isec_addr base table (at + 12) lsda_at' page_at' rest tail records'
            outs run (rw step at e3) next (omega arith),
        re,
      )
      (ap some (sym (map-append (entry_of isec_addr base) span records')))
