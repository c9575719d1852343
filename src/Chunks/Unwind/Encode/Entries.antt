-- ===== src/Chunks/Unwind/Encode/Entries.antt =====
-- What encode_page of macho/chunks/unwind_info.rs appends: runs of words, an entry a record.
use mathlib.Core.Option
use mold_macho.Chunks.Unwind.{UnwindRecord, position, page_offset, func_addr, contains, lsda}
use mold_macho.Chunks.Unwind.Encode.{
  push_entries, push_lsda, count_lsda, image_offset, push_zeros, push_encodings,
}
use mold_macho.Chunks.Unwind.Encode.Arrays.{words}
use mold_macho.Chunks.Unwind.Encode.Reader.{lsda_pairs, flat}
use mold_macho.Chunks.Unwind.Pages.{IsHeld}
use mold_macho.Prelude.{
  none, ◌∷◌, get_elem?, [], ◌<◌, ◌*◌, append_assoc, ◌^◌, bit_or, arith, ◌%◌, sym, suc, ◌+◌, ap,
  Option, map, true, ◌∙◌, ◌≡◌, some, length, ◌≤◌, ◌==◌, inr, ℕ, Bool-cases, append-nil, List, ◌/◌,
  refl, ◌++◌, inl,
}
use mold_macho.Prelude.Bits.{bit_or_disjoint}
use mold_macho.Prelude.Bytes.{All}
use mold_macho.Prelude.Slices.{get_elem?-in}
use mold_macho.Util.Words.{to_le_bytes, push32}
use native.Mathlib.Nat.{mod-eq_of_lt}

pub push32-words : (buf : List ℕ) (w : ℕ) → push32 buf w ≡ buf ++ words (w ∷ [])
unfolding push32
push32-words buf w = ap (λ l. buf ++ l) (sym (append-nil (to_le_bytes 4 w)))

pub push_encodings-words : (buf encs : List ℕ) → push_encodings buf encs ≡ buf ++ words encs
unfolding push_encodings push32
push_encodings-words buf [] = sym (append-nil buf)
push_encodings-words buf (enc ∷ encs) =
    unfold push_encodings in
    push_encodings-words (push32 buf enc) encs ∙ append_assoc buf (to_le_bytes 4 enc) (words encs)

pub push_zeros-words :
    (buf personalities : List ℕ)
    → push_zeros buf personalities ≡ buf ++ words (map (λ p. 0) personalities)
unfolding push_zeros push32
push_zeros-words buf [] = sym (append-nil buf)
push_zeros-words buf (p ∷ ps) =
    unfold push_zeros in
    push_zeros-words (push32 buf 0) ps
    ∙ append_assoc buf (to_le_bytes 4 0) (words (map (λ q. 0) ps))

-- The words of the LSDA rows of a run of records.
abbrev pub lsda_words : (ℕ → ℕ) → ℕ → List UnwindRecord → List ℕ
lsda_words isec_addr base span = flat (lsda_pairs isec_addr base span)

push_lsda_step :
    (isec_addr : ℕ → ℕ) (base : ℕ) (rec : UnwindRecord) (span : List UnwindRecord)
    (row : Option (ℕ × ℕ))
    → lsda rec ≡ row
    → ((buf : List ℕ)
        → push_lsda isec_addr base buf span ≡ buf ++ words (lsda_words isec_addr base span))
    → (buf : List ℕ)
    → push_lsda isec_addr base buf (rec ∷ span)
      ≡ buf ++ words (lsda_words isec_addr base (rec ∷ span))
unfolding push_lsda lsda_pairs
push_lsda_step isec_addr base rec span none e ih buf = rw (push_lsda, lsda_pairs, e) (ih buf)
push_lsda_step isec_addr base rec span (some (isec, off)) e ih buf =
    let a = image_offset base (func_addr isec_addr rec) in
    let b = image_offset base (isec_addr isec + off) in
    let more = words (lsda_words isec_addr base span) in
    let pushed : push32 (push32 buf a) b ≡ (buf ++ to_le_bytes 4 a) ++ to_le_bytes 4 b =
      unfold push32 in refl in
    rw (push_lsda, lsda_pairs, e, ih (push32 (push32 buf a) b), pushed)
      (append_assoc (buf ++ to_le_bytes 4 a) (to_le_bytes 4 b) more
        ∙ append_assoc buf (to_le_bytes 4 a) (to_le_bytes 4 b ++ more))

pub push_lsda-words :
    (isec_addr : ℕ → ℕ) (base : ℕ) (span : List UnwindRecord) (buf : List ℕ)
    → push_lsda isec_addr base buf span ≡ buf ++ words (lsda_words isec_addr base span)
push_lsda-words isec_addr base [] buf = unfold push_lsda lsda_pairs in sym (append-nil buf)
push_lsda-words isec_addr base (rec ∷ span) buf =
    push_lsda_step isec_addr base rec span (lsda rec) refl (push_lsda-words isec_addr base span) buf

count_lsda_step :
    (isec_addr : ℕ → ℕ) (base : ℕ) (rec : UnwindRecord) (span : List UnwindRecord)
    (row : Option (ℕ × ℕ))
    → lsda rec ≡ row
    → length (lsda_words isec_addr base span) ≡ 2 * count_lsda span
    → length (lsda_words isec_addr base (rec ∷ span)) ≡ 2 * count_lsda (rec ∷ span)
unfolding lsda_pairs count_lsda
count_lsda_step isec_addr base rec span none e ih = rw (lsda_pairs, count_lsda, e) ih
count_lsda_step isec_addr base rec span (some (isec, off)) e ih =
    rw (lsda_pairs, count_lsda, e) (omega (arith, ih))

pub length-lsda_words :
    (isec_addr : ℕ → ℕ) (base : ℕ) (span : List UnwindRecord)
    → length (lsda_words isec_addr base span) ≡ 2 * count_lsda span
length-lsda_words isec_addr base [] = unfold lsda_pairs count_lsda in refl
length-lsda_words isec_addr base (rec ∷ span) =
    count_lsda_step isec_addr base rec span (lsda rec) refl (length-lsda_words isec_addr base span)

-- A word that holds a record's offset from `page_base` and the index of its encoding.
abbrev pub IsEntry : (ℕ → ℕ) → ℕ → List ℕ → UnwindRecord → ℕ → Type 0
IsEntry isec_addr page_base encs rec w =
    (w < 2 ^ 32)
    × (w % 2 ^ 24 ≡ page_offset isec_addr page_base rec)
    × (get_elem? encs (w / 2 ^ 24) ≡ some rec.encoding)

abbrev pub Entries : (ℕ → ℕ) → ℕ → List ℕ → List UnwindRecord → List ℕ → Type 0
Entries isec_addr page_base encs [] ws = ws ≡ []
Entries isec_addr page_base encs (rec ∷ span) ws =
    (w : ℕ) × (ws' : List ℕ) × (ws ≡ w ∷ ws')
    × IsEntry isec_addr page_base encs rec w
    × Entries isec_addr page_base encs span ws'

pub length-Entries :
    (isec_addr : ℕ → ℕ) (page_base : ℕ) (encs : List ℕ) (span : List UnwindRecord) (ws : List ℕ)
    → Entries isec_addr page_base encs span ws
    → length ws ≡ length span
length-Entries isec_addr page_base encs [] ws h = rw h refl
length-Entries isec_addr page_base encs (rec ∷ span) ws (w, ws', e, entry, more) =
    rw e (ap suc (length-Entries isec_addr page_base encs span ws' more))

-- An encoding that a page has is found, at its place.
position-contains :
    (encs : List ℕ) (enc : ℕ)
    → contains encs enc ≡ true
    → (idx : ℕ) × (position enc encs ≡ some idx) × (get_elem? encs idx ≡ some enc)
unfolding position contains
position-contains [] enc h = absurd cc
position-contains (e ∷ encs) enc h = elim (Bool-cases (e == enc)) [
  | inl here ↦ (0, rw here refl, ground arith)
  | inr there ↦
      let inside : contains encs enc ≡ true = rw there at h in
      let (idx, found, at) = position-contains encs enc inside in
      (suc idx, rw (there, found, Option.map) (ap some (omega arith)), at)
]

IsEntry-word :
    (isec_addr : ℕ → ℕ) (page_base : ℕ) (encs : List ℕ) (rec : UnwindRecord) (idx : ℕ)
    → length encs ≤ 256
    → page_offset isec_addr page_base rec < 2 ^ 24
    → get_elem? encs idx ≡ some rec.encoding
    → IsEntry isec_addr page_base encs rec
        (bit_or (page_offset isec_addr page_base rec % 2 ^ 32) (idx * 2 ^ 24 % 2 ^ 32))
IsEntry-word isec_addr page_base encs rec idx few near at =
    let off = page_offset isec_addr page_base rec in
    let in_range = get_elem?-in encs idx rec.encoding at in
    let low : off % 2 ^ 32 ≡ off = mod-eq_of_lt (omega arith) in
    let high : idx * 2 ^ 24 % 2 ^ 32 ≡ idx * 2 ^ 24 = mod-eq_of_lt (omega arith) in
    let joined = bit_or_disjoint 24 off idx near in
    let index : (off + idx * 2 ^ 24) / 2 ^ 24 ≡ idx = omega arith in
    rw (low, high, joined, index) (omega arith, omega arith, at)

pub push_entries-Entries :
    (isec_addr : ℕ → ℕ) (page_base : ℕ) (encs : List ℕ) (span : List UnwindRecord) (buf : List ℕ)
    → length encs ≤ 256
    → All (IsHeld isec_addr page_base encs) span
    → (ws : List ℕ) × (push_entries isec_addr page_base encs buf span ≡ some (buf ++ words ws))
      × Entries isec_addr page_base encs span ws
unfolding push_entries
push_entries-Entries isec_addr page_base encs [] buf few held =
    ([], ap some (sym (append-nil buf)), refl)
push_entries-Entries isec_addr page_base encs (rec ∷ span) buf few ((has, near), held) =
    let (idx, found, at) = position-contains encs rec.encoding has in
    let w = bit_or (page_offset isec_addr page_base rec % 2 ^ 32) (idx * 2 ^ 24 % 2 ^ 32) in
    let (ws, e, entries) =
      push_entries-Entries isec_addr page_base encs span (push32 buf w) few held in
    let pushed : push32 buf w ≡ buf ++ to_le_bytes 4 w = unfold push32 in refl in
    (
      w ∷ ws,
      rw (found, e, pushed) (ap some (append_assoc buf (to_le_bytes 4 w) (words ws))),
      (w, ws, refl, IsEntry-word isec_addr page_base encs rec idx few near at, entries),
    )
