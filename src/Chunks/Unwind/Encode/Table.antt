-- ===== src/Chunks/Unwind/Encode/Table.antt =====
-- The whole table of macho/chunks/unwind_info.rs reads back: each function with its encoding, and
-- each LSDA.
use mold_macho.Chunks.Unwind.{UnwindRecord, lsda}
use mold_macho.Chunks.Unwind.Encode.{EncodedPage, Parts, push_pages}
use mold_macho.Chunks.Unwind.Encode.Arrays.{words, words-append}
use mold_macho.Chunks.Unwind.Encode.Entries.{lsda_words, push32-words}
use mold_macho.Chunks.Unwind.Encode.Reader.{flat, lsda_pairs}
use mold_macho.Chunks.Unwind.Encode.Runs.{HoldsRun, index_words, pages_bytes}
use mold_macho.Prelude.{
  [], none, some, ◌++◌, ◌+◌, refl, List, ap, Option, length, ◌≡◌, ◌∷◌, ℕ, length-append, append-nil,
  ◌^◌, sym, arith, append_assoc, ◌%◌, ◌∙◌,
}
use mold_macho.Util.Words.{push32, to_le_bytes}

abbrev pub lsdas_of : (ℕ → ℕ) → ℕ → List UnwindRecord → List ℕ
lsdas_of isec_addr base records = words (lsda_words isec_addr base records)

flat-append : (xs ys : List (ℕ × ℕ)) → flat (xs ++ ys) ≡ flat xs ++ flat ys
flat-append [] ys = refl
flat-append ((a, b) ∷ xs) ys = ap (λ l. a ∷ b ∷ l) (flat-append xs ys)

lsda_pairs_step :
    (isec_addr : ℕ → ℕ) (base : ℕ) (rec : UnwindRecord) (xs ys : List UnwindRecord)
    (row : Option (ℕ × ℕ))
    → lsda rec ≡ row
    → lsda_pairs isec_addr base (xs ++ ys)
      ≡ lsda_pairs isec_addr base xs ++ lsda_pairs isec_addr base ys
    → lsda_pairs isec_addr base (rec ∷ xs ++ ys)
      ≡ lsda_pairs isec_addr base (rec ∷ xs) ++ lsda_pairs isec_addr base ys
unfolding lsda_pairs
lsda_pairs_step isec_addr base rec xs ys none e ih = rw (lsda_pairs, e) ih
lsda_pairs_step isec_addr base rec xs ys (some (isec, off)) e ih = rw (lsda_pairs, e, ih) refl

lsda_pairs-append :
    (isec_addr : ℕ → ℕ) (base : ℕ) (xs ys : List UnwindRecord)
    → lsda_pairs isec_addr base (xs ++ ys)
      ≡ lsda_pairs isec_addr base xs ++ lsda_pairs isec_addr base ys
lsda_pairs-append isec_addr base [] ys = unfold lsda_pairs in refl
lsda_pairs-append isec_addr base (rec ∷ xs) ys =
    lsda_pairs_step isec_addr base rec xs ys (lsda rec) refl
      (lsda_pairs-append isec_addr base xs ys)

lsdas_of-append :
    (isec_addr : ℕ → ℕ) (base : ℕ) (xs ys : List UnwindRecord)
    → lsdas_of isec_addr base (xs ++ ys) ≡ lsdas_of isec_addr base xs ++ lsdas_of isec_addr base ys
lsdas_of-append isec_addr base xs ys =
    let a = lsda_pairs isec_addr base xs in
    let b = lsda_pairs isec_addr base ys in
    rw (lsda_pairs-append isec_addr base xs ys, flat-append a b) (words-append (flat a) (flat b))

same_parts :
    {a a' b b' c c' : List ℕ}
    → a ≡ a'
    → b ≡ b'
    → c ≡ c'
    → ◌≡◌ {A = Parts}
        (record { page1 = a; lsdas = b; pages2 = c })
        (record { page1 = a'; lsdas = b'; pages2 = c' })
same_parts ea eb ec = λ i. record { page1 = ea i; lsdas = eb i; pages2 = ec i }

pub push_row :
    (buf : List ℕ) (a b c : ℕ) (ws : List ℕ)
    → push32 (push32 (push32 buf a) b) c ++ words ws ≡ buf ++ words (a ∷ b ∷ c ∷ ws)
unfolding mold_macho.Util.Words.to_le_bytes
push_row buf a b c ws =
    let buf1 = push32 buf a in
    let buf2 = push32 buf1 b in
    ap (λ l. l ++ words ws) (push32-words buf2 c)
    ∙ (append_assoc buf2 (words (c ∷ [])) (words ws)
        ∙ (ap (λ l. l ++ words (c ∷ ws)) (push32-words buf1 b)
            ∙ (append_assoc buf1 (words (b ∷ [])) (words (c ∷ ws))
                ∙ (ap (λ l. l ++ words (b ∷ c ∷ ws)) (push32-words buf a)
                    ∙ append_assoc buf (words (a ∷ [])) (words (b ∷ c ∷ ws))))))

-- What the walk over the pages leaves.
pub push_pages-HoldsRun :
    (isec_addr : ℕ → ℕ) (base lsda_off page2_off : ℕ) (parts : Parts) (records : List UnwindRecord)
    (outs : List EncodedPage)
    → HoldsRun isec_addr base records outs
    → push_pages lsda_off page2_off parts outs ≡ record {
      page1 =
          parts.page1
          ++ words
              (index_words (lsda_off + length parts.lsdas) (page2_off + length parts.pages2) outs);
      lsdas = parts.lsdas ++ lsdas_of isec_addr base records;
      pages2 = parts.pages2 ++ pages_bytes outs;
    }
push_pages-HoldsRun isec_addr base lsda_off page2_off parts records [] run =
    unfold push_pages in
    same_parts (sym (append-nil parts.page1))
      (rw run (unfold lsda_pairs in sym (append-nil parts.lsdas))) (sym (append-nil parts.pages2))
push_pages-HoldsRun isec_addr base lsda_off page2_off parts records (out ∷ outs)
      (span, records', re, (reads, rows, first-lt), run) =
    let lsda_at = lsda_off + length parts.lsdas in
    let page_at = page2_off + length parts.pages2 in
    let lsda_at' : lsda_off + length (parts.lsdas ++ out.lsda_rows)
        ≡ lsda_at + length out.lsda_rows =
      omega (arith, length-append parts.lsdas out.lsda_rows) in
    let page_at' : page2_off + length (parts.pages2 ++ out.page2) ≡ page_at + length out.page2 =
      omega (arith, length-append parts.pages2 out.page2) in
    let parts' : Parts = record {
      page1 = push32 (push32 (push32 parts.page1 out.first) (page_at % 2 ^ 32)) (lsda_at % 2 ^ 32);
      lsdas = parts.lsdas ++ out.lsda_rows;
      pages2 = parts.pages2 ++ out.page2;
    } in
    let step : push_pages lsda_off page2_off parts (out ∷ outs)
        ≡ push_pages lsda_off page2_off parts' outs =
      unfold push_pages in refl in
    let ws = index_words (lsda_at + length out.lsda_rows) (page_at + length out.page2) outs in
    step
    ∙ (push_pages-HoldsRun isec_addr base lsda_off page2_off parts' records' outs run
        ∙ same_parts
            (rw (lsda_at', page_at')
              (push_row parts.page1 out.first (page_at % 2 ^ 32) (lsda_at % 2 ^ 32) ws))
            (append_assoc parts.lsdas out.lsda_rows (lsdas_of isec_addr base records')
              ∙ ap (λ l. parts.lsdas ++ l)
                  (ap (λ l. l ++ lsdas_of isec_addr base records') rows
                    ∙ (sym (lsdas_of-append isec_addr base span records')
                        ∙ ap (lsdas_of isec_addr base) (sym re))))
            (append_assoc parts.pages2 out.page2 (pages_bytes outs)))
