-- ===== src/Chunks/Unwind/Encode.antt =====
-- The bytes of the table: write_table and encode_page of macho/chunks/unwind_info.rs. `base` is the
-- image's address, and `none` a panic of an empty page or of an encoding that its page has not.
pub mod Arrays
pub mod Entries
pub mod Reader
pub mod Pages2
pub mod Runs
pub mod Table
pub mod ReadBack
use mold_macho.Chunks.Unwind.{lsda, page_offset, func_addr, position, UnwindRecord, Page, is_none}
use mold_macho.Prelude.{
  sym, ◌∷◌, ◌+◌, ◌++◌, Bool, false, ℕ, bit_or, ◌%◌, ◌^◌, Option, length, take, ◌*◌, ◌-◌, none,
  if◌then◌else◌, drop, true, some, List, [], ◌&&◌, leb,
}
use mold_macho.Prelude.Fallible.{◌>>=◌}
use mold_macho.Util.Words.{push16, push32}

-- `func_addr(ctx, rec).wrapping_sub(base) as u32` and its like.
abbrev pub image_offset : ℕ → ℕ → ℕ
image_offset base addr = (addr + 2 ^ 64 - base) % 2 ^ 64 % 2 ^ 32

pub record EncodedPage : Type 0 where
  pub page2 : List ℕ
  pub lsda_rows : List ℕ
  pub first : ℕ

-- A page's rows of the LSDA index, after those in `buf`.
unfoldable pub push_lsda : (ℕ → ℕ) → ℕ → List ℕ → List UnwindRecord → List ℕ
unfolding push32 lsda func_addr
push_lsda isec_addr base buf [] = buf
push_lsda isec_addr base buf (rec ∷ span) = elim (lsda rec) [
  | none ↦ push_lsda isec_addr base buf span
  | some (isec, off) ↦
      push_lsda isec_addr base
        (push32 (push32 buf (image_offset base (func_addr isec_addr rec)))
          (image_offset base (isec_addr isec + off)))
        span
]

-- A page's entries: each record's offset from the first function, and its encoding's index.
unfoldable pub push_entries : (ℕ → ℕ) → ℕ → List ℕ → List ℕ → List UnwindRecord → Option (List ℕ)
unfolding push32 position func_addr
push_entries isec_addr page_base encs buf [] = some buf
push_entries isec_addr page_base encs buf (rec ∷ span) = position rec.encoding encs >>= (λ idx.
    push_entries isec_addr page_base encs
      (push32 buf (bit_or (page_offset isec_addr page_base rec % 2 ^ 32) (idx * 2 ^ 24 % 2 ^ 32)))
      span)

unfoldable pub push_encodings : List ℕ → List ℕ → List ℕ
unfolding push32
push_encodings buf [] = buf
push_encodings buf (enc ∷ encs) = push_encodings (push32 buf enc) encs

unfoldable pub page_header : ℕ → ℕ → List ℕ
unfolding push16 push32
page_header num_records num_encodings =
    push16
      (push16 (push16 (push16 (push32 [] 3) 12) (num_records % 2 ^ 16))
        ((12 + num_records * 4) % 2 ^ 16))
      (num_encodings % 2 ^ 16)

-- `&records[page.records.clone()]`, whose panic is `none`.
unfoldable pub span_of : List UnwindRecord → Page → Option (List UnwindRecord)
span_of records page =
    if leb page.start page.stop && leb page.stop (length records)
    then some (take (page.stop - page.start) (drop page.start records))
    else none

-- A page of the records `head ∷ span`.
unfoldable pub encode_span :
    (ℕ → ℕ) → ℕ → UnwindRecord → List UnwindRecord → List ℕ → Option EncodedPage
unfolding push_lsda push_entries push_encodings page_header func_addr
encode_span isec_addr base head span encs =
    push_entries isec_addr (func_addr isec_addr head) encs
      (page_header (length (head ∷ span)) (length encs)) (head ∷ span)
    >>= (λ entries. some (record {
      page2 = push_encodings entries encs;
      lsda_rows = push_lsda isec_addr base [] (head ∷ span);
      first = image_offset base (func_addr isec_addr head);
    }))

-- `span[0]` is the panic of a page without a record.
unfoldable pub encode_page : (ℕ → ℕ) → ℕ → List UnwindRecord → Page → Option EncodedPage
unfolding span_of encode_span
encode_page isec_addr base records page = span_of records page >>= (λ span. elim span [
  | [] ↦ none
  | head ∷ span' ↦ encode_span isec_addr base head span' page.encodings
])

unfoldable pub encode_pages :
    (ℕ → ℕ) → ℕ → List UnwindRecord → List Page → Option (List EncodedPage)
unfolding encode_page
encode_pages isec_addr base records [] = some []
encode_pages isec_addr base records (page ∷ pages) =
    encode_page isec_addr base records page
    >>= (λ out. encode_pages isec_addr base records pages >>= (λ outs. some (out ∷ outs)))

-- The index, the LSDA rows and the pages, each as far as it is written.
pub record Parts : Type 0 where
  pub page1 : List ℕ
  pub lsdas : List ℕ
  pub pages2 : List ℕ

-- The walk over the encoded pages.
unfoldable pub push_pages : ℕ → ℕ → Parts → List EncodedPage → Parts
unfolding push32
push_pages lsda_off page2_off parts [] = parts
push_pages lsda_off page2_off parts (out ∷ outs) =
    push_pages lsda_off page2_off
      (record {
        page1 =
            push32
              (push32 (push32 parts.page1 out.first) ((page2_off + length parts.pages2) % 2 ^ 32))
              ((lsda_off + length parts.lsdas) % 2 ^ 32);
        lsdas = parts.lsdas ++ out.lsda_rows;
        pages2 = parts.pages2 ++ out.page2;
      })
      outs

unfoldable pub count_lsda : List UnwindRecord → ℕ
unfolding lsda
count_lsda [] = 0
count_lsda (rec ∷ records) =
    if is_none (lsda rec) then count_lsda records else 1 + count_lsda records

unfoldable pub table_header : ℕ → ℕ → List ℕ
unfolding push32
table_header num_personalities num_pages =
    push32
      (push32 (push32 (push32 (push32 (push32 (push32 [] 1) 28) 0) 28) (num_personalities % 2 ^ 32))
        ((28 + num_personalities * 4) % 2 ^ 32))
      ((num_pages + 1) % 2 ^ 32)

unfoldable pub push_zeros : List ℕ → List ℕ → List ℕ
unfolding push32
push_zeros buf [] = buf
push_zeros buf (sym ∷ personalities) = push_zeros (push32 buf 0) personalities

-- `end` is the address of the last byte covered.
unfoldable pub write_table :
    (ℕ → ℕ) → ℕ → List UnwindRecord → List ℕ → List Page → ℕ → Option (List ℕ)
unfolding encode_pages push_pages count_lsda table_header push_zeros push32
write_table isec_addr base records personalities pages last =
    let page1_off = 28 + length personalities * 4 in
    let lsda_off = page1_off + (length pages + 1) * 12 in
    let page2_off = lsda_off + count_lsda records * 8 in
    encode_pages isec_addr base records pages >>= (λ outs.
      let parts =
        push_pages lsda_off page2_off (record { page1 = []; lsdas = []; pages2 = [] }) outs in
      let page1 =
        push32 (push32 (push32 parts.page1 (image_offset base (last + 1))) 0)
          ((lsda_off + length parts.lsdas) % 2 ^ 32) in
      some (
        push_zeros (table_header (length personalities) (length pages)) personalities
        ++ (page1 ++ (parts.lsdas ++ parts.pages2))))

-- `is_needed`: whether any function has unwind info.
unfoldable pub is_needed : List UnwindRecord → Bool
is_needed [] = false
is_needed (rec ∷ records) = true
