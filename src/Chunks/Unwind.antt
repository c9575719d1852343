-- ===== src/Chunks/Unwind.antt =====
-- macho/chunks/unwind_info.rs: the compact unwind table, and the UnwindRecord of
-- macho/input_sections.rs. `isec_addr` gives the output address of an input section.
pub mod Merge
pub mod Personalities
pub mod Pages
pub mod Encode
use mathlib.Core.Option
use mold_macho.Prelude.{
  List, some, ◌*◌, Option, bit_and, ◌==◌, true, [], false, Bool, ltb, bit_or, ◌%◌, ℕ, ◌&&◌,
  if◌then◌else◌, ◌-◌, zero, length, drop, ◌^◌, ◌∷◌, ◌||◌, not, none, leb, ◌++◌, ◌+◌, suc, map,
}
use mold_macho.Prelude.Fallible.{◌>>=◌}

abbrev pub unwind_none : ℕ
unwind_none = 2 ^ 32 - 1

pub record UnwindRecord : Type 0 where
  pub isec : ℕ
  pub input_offset : ℕ
  pub code_len : ℕ
  pub encoding : ℕ
  pub personality_sym : ℕ
  pub lsda_isec : ℕ
  pub lsda_off : ℕ
  pub fde_idx : ℕ

unfoldable pub personality : UnwindRecord → Option ℕ
personality rec = if rec.personality_sym == unwind_none then none else some rec.personality_sym

unfoldable pub lsda : UnwindRecord → Option (ℕ × ℕ)
lsda rec = if rec.lsda_isec == unwind_none then none else some (rec.lsda_isec, rec.lsda_off)

unfoldable pub func_addr : (ℕ → ℕ) → UnwindRecord → ℕ
func_addr isec_addr rec = isec_addr rec.isec + rec.input_offset

-- `personalities.iter().position(|&s| s == p)`.
unfoldable pub position : ℕ → List ℕ → Option ℕ
position p [] = none
position p (s ∷ ss) = if s == p then some 0 else Option.map (λ i. i + 1) (position p ss)

-- The index of a routine in the array, which it joins if it is new.
unfoldable pub personality_index : List ℕ → ℕ → ℕ × List ℕ
unfolding position
personality_index personalities p = elim (position p personalities) [
  | some idx ↦ (idx, personalities)
  | none ↦ (length personalities, personalities ++ p ∷ [])
]

-- `idx` is the routine's place in the array; `none` is the fatal error of a fourth routine.
unfoldable pub give_index : UnwindRecord → ℕ → Option UnwindRecord
give_index rec idx =
    if leb 3 idx
    then none
    else some (record rec { encoding = bit_or rec.encoding ((idx + 1) * 2 ^ 28 % 2 ^ 32) })

unfoldable pub assign_loop : List ℕ → List UnwindRecord → Option (List UnwindRecord × List ℕ)
unfolding personality personality_index give_index
assign_loop personalities [] = some ([], personalities)
assign_loop personalities (rec ∷ records) = elim (personality rec) [
  | none ↦ assign_loop personalities records >>= (λ (recs, ps). some (rec ∷ recs, ps))
  | some p ↦ give_index rec (personality_index personalities p).0 >>= (λ rec'.
      assign_loop (personality_index personalities p).1 records
      >>= (λ (recs, ps). some (rec' ∷ recs, ps)))
]

unfoldable pub assign_personalities : List UnwindRecord → Option (List UnwindRecord × List ℕ)
unfolding assign_loop
assign_personalities records = assign_loop [] records

-- An x86-64 entry in "stack immediate indirect" mode; `x86` is `E::CPUTYPE == CPU_TYPE_X86_64`.
unfoldable pub stack_ind : Bool → ℕ → Bool
stack_ind x86 enc = x86 && bit_and enc 0x0f00_0000 == 0x0300_0000

unfoldable pub same_personality : UnwindRecord → UnwindRecord → Bool
unfolding personality
same_personality a b = elim (personality a) [
  | none ↦ elim (personality b) [ none ↦ true | some q ↦ false ]
  | some p ↦ elim (personality b) [ none ↦ false | some q ↦ p == q ]
]

abbrev pub is_none {ℓ} : {A : Type ℓ} → Option A → Bool
is_none none = true
is_none (some a) = false

-- The closure of `merge_records`: whether `rec` goes, `last` being the record kept before it.
unfoldable pub merges : Bool → UnwindRecord → UnwindRecord → Bool
unfolding stack_ind same_personality lsda
merges x86 rec last =
    not (stack_ind x86 rec.encoding)
    && (last.encoding == rec.encoding
        && (same_personality last rec && (is_none (lsda last) && is_none (lsda rec))))

-- `Vec::dedup_by`: a record that merges with the last one kept is dropped.
unfoldable pub dedup_by : Bool → UnwindRecord → List UnwindRecord → List UnwindRecord
unfolding merges
dedup_by x86 last [] = []
dedup_by x86 last (rec ∷ records) =
    let kept = rec ∷ dedup_by x86 rec records in
    let dropped = dedup_by x86 last records in if merges x86 rec last then dropped else kept

unfoldable pub merge_records : Bool → List UnwindRecord → List UnwindRecord
unfolding dedup_by
merge_records x86 [] = []
merge_records x86 (rec ∷ records) = rec ∷ dedup_by x86 rec records

-- A compressed second-level page: the records from `start` to before `stop`, and their encodings.
pub record Page : Type 0 where
  pub start : ℕ
  pub stop : ℕ
  pub encodings : List ℕ

unfoldable pub contains : List ℕ → ℕ → Bool
contains [] a = false
contains (x ∷ xs) a = x == a || contains xs a

-- `func_addr(ctx, rec) - first_addr`, a u64 difference.
abbrev pub page_offset : (ℕ → ℕ) → ℕ → UnwindRecord → ℕ
page_offset isec_addr first_addr rec = (func_addr isec_addr rec + 2 ^ 64 - first_addr) % 2 ^ 64

abbrev pub new_enc : List ℕ → ℕ → ℕ
new_enc encs enc = if contains encs enc then 0 else 1

-- The test that ends a page, before its record number `n`: encodings, bytes, or code.
unfoldable pub is_full : (ℕ → ℕ) → ℕ → List ℕ → ℕ → UnwindRecord → Bool
unfolding contains func_addr
is_full isec_addr first_addr encs n rec =
    ltb 256 (length encs + new_enc encs rec.encoding)
    || (ltb 4096 (12 + (n + 1 + length encs + new_enc encs rec.encoding) * 4)
        || leb (2 ^ 24) (page_offset isec_addr first_addr rec))

-- The inner loop of `split_pages`: how many records the page takes, and its encodings.
unfoldable pub fill_page : (ℕ → ℕ) → ℕ → List ℕ → ℕ → List UnwindRecord → ℕ × List ℕ
unfolding is_full
fill_page isec_addr first_addr encs n [] = (n, encs)
fill_page isec_addr first_addr encs n (rec ∷ records) =
    let encs' = if contains encs rec.encoding then encs else encs ++ rec.encoding ∷ [] in
    let more = fill_page isec_addr first_addr encs' (n + 1) records in
    if is_full isec_addr first_addr encs n rec then (n, encs) else more

-- A page takes a record at least, so as many rounds as there are records are enough.
unfoldable pub split_pages_loop : ℕ → (ℕ → ℕ) → ℕ → List UnwindRecord → Option (List Page)
unfolding fill_page
split_pages_loop fuel isec_addr start [] = some []
split_pages_loop zero isec_addr start (rec ∷ records) = none
split_pages_loop (suc fuel) isec_addr start (rec ∷ records) =
    let (n, encs) = fill_page isec_addr (func_addr isec_addr rec) [] 0 (rec ∷ records) in
    split_pages_loop fuel isec_addr (start + n) (drop n (rec ∷ records))
    >>= (λ pages. some (record { start = start; stop = start + n; encodings = encs } ∷ pages))

unfoldable pub split_pages : (ℕ → ℕ) → List UnwindRecord → Option (List Page)
unfolding split_pages_loop
split_pages isec_addr records = split_pages_loop (length records) isec_addr 0 records
