-- ===== src/Chunks/Unwind/Pages.antt =====
-- The pages cover the records in order, and each fits its format: 4096 bytes, 256 encodings that
-- include every record's, and 24-bit offsets.
use mold_macho.Chunks.Unwind.{
  UnwindRecord, page_offset, contains, fill_page, is_full, new_enc, func_addr, Page, split_pages,
  split_pages_loop,
}
use mold_macho.Prelude.{
  if◌then◌else◌, ◌∷◌, length-append, ◌^◌, ◌*◌, List, ◌<◌, ◌++◌, false, ℕ, length, [], arith, take,
  ◌+◌, ◌≡◌, refl, true, ◌||◌, ◌≤◌, inr, drop, ◌∙◌, suc, inl, Bool-cases, some, zero, length-drop,
}
use mold_macho.Prelude.Bytes.{All}

-- A record that a page with these encodings, starting at `first_addr`, can hold an entry for.
abbrev pub IsHeld : (ℕ → ℕ) → ℕ → List ℕ → UnwindRecord → Type 0
IsHeld isec_addr first_addr encs rec =
    (contains encs rec.encoding ≡ true) × (page_offset isec_addr first_addr rec < 2 ^ 24)

-- The limits of a page with `n` records.
abbrev pub WithinPage : ℕ → List ℕ → Type 0
WithinPage n encs = (length encs ≤ 256) × (12 + (n + length encs) * 4 ≤ 4096)

contains-append :
    (xs ys : List ℕ) (a : ℕ) → contains (xs ++ ys) a ≡ (contains xs a || contains ys a)
unfolding contains
contains-append [] ys a = refl
contains-append (x ∷ xs) ys a = ground (arith, contains-append xs ys a)

-- What the page has once it has taken a record.
abbrev taken : List ℕ → UnwindRecord → List ℕ
taken encs rec = if contains encs rec.encoding then encs else encs ++ rec.encoding ∷ []

taken-contains :
    (encs : List ℕ) (rec : UnwindRecord) → contains (taken encs rec) rec.encoding ≡ true
unfolding contains
taken-contains encs rec = ground (arith, contains-append encs (rec.encoding ∷ []) rec.encoding)

length-taken :
    (encs : List ℕ) (rec : UnwindRecord)
    → length (taken encs rec) ≡ length encs + new_enc encs rec.encoding
length-taken encs rec = ground (arith, length-append encs (rec.encoding ∷ []))

module _ (isec_addr : ℕ → ℕ) (first_addr : ℕ) where
  fill_page-full :
      (encs : List ℕ) (n : ℕ) (rec : UnwindRecord) (records : List UnwindRecord)
      → is_full isec_addr first_addr encs n rec ≡ true
      → fill_page isec_addr first_addr encs n (rec ∷ records) ≡ (n, encs)
  unfolding fill_page
  fill_page-full encs n rec records h = rw h

  fill_page-room :
      (encs : List ℕ) (n : ℕ) (rec : UnwindRecord) (records : List UnwindRecord)
      → is_full isec_addr first_addr encs n rec ≡ false
      → fill_page isec_addr first_addr encs n (rec ∷ records)
        ≡ fill_page isec_addr first_addr (taken encs rec) (n + 1) records
  unfolding fill_page
  fill_page-room encs n rec records h = rw h

  room-WithinPage :
      (encs : List ℕ) (n : ℕ) (rec : UnwindRecord)
      → is_full isec_addr first_addr encs n rec ≡ false
      → WithinPage (n + 1) (taken encs rec) × (page_offset isec_addr first_addr rec < 2 ^ 24)
  unfolding is_full
  room-WithinPage encs n rec h = ground (arith, length-taken encs rec)

  -- The encodings only grow.
  Grows : List ℕ → List ℕ → Type 0
  Grows encs encs' = (a : ℕ) → contains encs a ≡ true → contains encs' a ≡ true

  taken-Grows : (encs : List ℕ) (rec : UnwindRecord) → Grows encs (taken encs rec)
  unfolding Grows
  taken-Grows encs rec a h = ground (arith, contains-append encs (rec.encoding ∷ []) a)

  -- What a run of the loop from `n` records and `encs` on returns.
  Fills : List ℕ → ℕ → List UnwindRecord → ℕ × List ℕ → Type 0
  Fills encs n records (k, encs') =
      (fill_page isec_addr first_addr encs n records ≡ (n + k, encs'))
      × (k ≤ length records)
      × WithinPage (n + k) encs'
      × Grows encs encs'
      × All (IsHeld isec_addr first_addr encs') (take k records)

  stops :
      (encs : List ℕ) (n : ℕ) (records : List UnwindRecord)
      → WithinPage n encs
      → fill_page isec_addr first_addr encs n records ≡ (n, encs)
      → Fills encs n records (0, encs)
  unfolding Fills Grows
  stops encs n records h e =
      let z : n + 0 ≡ n = omega arith in rw (z, e) (refl, omega arith, h, λ a c. c, tt)

  goes_on :
      (encs : List ℕ) (n : ℕ) (rec : UnwindRecord) (records : List UnwindRecord) (k : ℕ)
      (encs' : List ℕ)
      → is_full isec_addr first_addr encs n rec ≡ false
      → Fills (taken encs rec) (n + 1) records (k, encs')
      → Fills encs n (rec ∷ records) (suc k, encs')
  unfolding Fills Grows
  goes_on encs n rec records k encs' room (e, le, within, grows, held) =
      let z : n + suc k ≡ n + 1 + k = omega arith in
      rw z (
        fill_page-room encs n rec records room ∙ e,
        omega arith,
        within,
        λ a c. grows a (unfold Grows in taken-Grows encs rec a c),
        ((grows rec.encoding (taken-contains encs rec), (room-WithinPage encs n rec room).1), held),
      )

  fill_page_lem :
      (encs : List ℕ) (n : ℕ) (records : List UnwindRecord)
      → WithinPage n encs
      → (r : ℕ × List ℕ) × Fills encs n records r
  fill_page_lem encs n [] h = ((0, encs), stops encs n [] h (unfold fill_page in refl))
  fill_page_lem encs n (rec ∷ records) h =
      elim (Bool-cases (is_full isec_addr first_addr encs n rec)) [
        | inl full ↦
            ((0, encs), stops encs n (rec ∷ records) h (fill_page-full encs n rec records full))
        | inr room ↦
            let ((k, encs'), fills) =
              fill_page_lem (taken encs rec) (n + 1) records (room-WithinPage encs n rec room).0 in
            ((suc k, encs'), goes_on encs n rec records k encs' room fills)
      ]

-- A page's first record always fits.
first_fits :
    (isec_addr : ℕ → ℕ) (rec : UnwindRecord)
    → is_full isec_addr (func_addr isec_addr rec) [] 0 rec ≡ false
unfolding is_full
first_fits isec_addr rec = ground arith

-- The pages cover `records` in order, from record number `start` on, and each is within its limits
-- and holds its records.
abbrev pub CoversFrom : (ℕ → ℕ) → ℕ → List UnwindRecord → List Page → Type 0
CoversFrom isec_addr start records [] = records ≡ []
CoversFrom isec_addr start records (page ∷ pages) =
    (n : ℕ) × (rec : UnwindRecord) × (rest : List UnwindRecord) × (take n records ≡ rec ∷ rest)
    × (page.start ≡ start)
    × (page.stop ≡ start + n)
    × (n ≤ length records)
    × WithinPage n page.encodings
    × All (IsHeld isec_addr (func_addr isec_addr rec) page.encodings) (take n records)
    × CoversFrom isec_addr (start + n) (drop n records) pages

-- The first page of a non-empty run of records.
first_page :
    (isec_addr : ℕ → ℕ) (rec : UnwindRecord) (records : List UnwindRecord)
    → (k : ℕ) × (encs : List ℕ) × (fill_page isec_addr
          (func_addr isec_addr rec)
          []
          0
          (rec ∷ records)
        ≡ (suc k, encs))
      × (k ≤ length records)
      × WithinPage (suc k) encs
      × All (IsHeld isec_addr (func_addr isec_addr rec) encs) (take (suc k) (rec ∷ records))
unfolding Fills
first_page isec_addr rec records =
    let first = func_addr isec_addr rec in
    let start = room-WithinPage isec_addr first [] 0 rec (first_fits isec_addr rec) in
    let ((k, encs), fills) = fill_page_lem isec_addr first (taken [] rec) (0 + 1) records start.0 in
    let (e, le, within, grows, held) =
      goes_on isec_addr first [] 0 rec records k encs (first_fits isec_addr rec) fills in
    let z : 0 + suc k ≡ suc k = omega arith in
    (k, encs, rw z at e, omega arith, rw z at within, held)

split_pages_loop-CoversFrom :
    (fuel : ℕ) (isec_addr : ℕ → ℕ) (start : ℕ) (records : List UnwindRecord)
    → length records ≤ fuel
    → (pages : List Page) × (split_pages_loop fuel isec_addr start records ≡ some pages)
      × CoversFrom isec_addr start records pages
unfolding split_pages_loop
split_pages_loop-CoversFrom fuel isec_addr start [] h = ([], refl, refl)
split_pages_loop-CoversFrom zero isec_addr start (rec ∷ records) h = absurd (omega arith)
split_pages_loop-CoversFrom (suc fuel) isec_addr start (rec ∷ records) h =
    let (k, encs, e, le, within, held) = first_page isec_addr rec records in
    let (pages, rest, covers) =
      split_pages_loop-CoversFrom fuel isec_addr (start + suc k) (drop k records)
        (omega (arith, length-drop k records)) in
    (
      record { start = start; stop = start + suc k; encodings = encs } ∷ pages,
      rw (e, rest) refl,
      (suc k, rec, take k records, refl, refl, refl, omega arith, within, held, covers),
    )

-- `split_pages` ends, and its pages cover the records in order: each has a record at least, at
-- most 4096 bytes and 256 encodings, and holds every record of its run, by its encoding and by an
-- offset of 24 bits from the page's first function.
pub split_pages-CoversFrom :
    (isec_addr : ℕ → ℕ) (records : List UnwindRecord)
    → (pages : List Page) × (split_pages isec_addr records ≡ some pages)
      × CoversFrom isec_addr 0 records pages
unfolding split_pages
split_pages-CoversFrom isec_addr records =
    split_pages_loop-CoversFrom (length records) isec_addr 0 records (omega arith)
