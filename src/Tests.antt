-- ===== src/Tests.antt =====
-- Runs of the definitions, and the theorems at concrete inputs.
pub mod Matching
pub mod Archives
pub mod Sections
pub mod Tables
pub mod Instructions
use mold_macho.Chunks.WeakBind
use mold_macho.Chunks.Bind
use mold_macho.Chunks.FunctionStarts
use mold_macho.Chunks.LazyBind
use mathlib.Core.List.{Perm}
use mathlib.Core.Path.{subst}
use mold_macho.Chunks.Bind.{Bind, Op, import_flags, in_library, bind_le, bind_ops}
use mold_macho.Chunks.Bind.Construct.{construct-bound, Bindable}
use mold_macho.Chunks.Bind.Key.{WeakLe, KeyLe}
use mold_macho.Chunks.Bind.Machine.{bound, bound_stream}
use mold_macho.Chunks.Bind.Moves.{Apart, SameSegment, Apart-Steps}
use mold_macho.Chunks.Bind.Ops.{start, bind_ops-bound, made_of}
use mold_macho.Chunks.FunctionStarts.{dedup}
use mold_macho.Chunks.FunctionStarts.RoundTrip.{construct-read_table, read_table}
use mold_macho.Chunks.LazyBind.{LazyStub, lazy_loop, lazy_record}
use mold_macho.Chunks.LazyBind.Entry.{construct-Enters, IsStub, Enters}
use mold_macho.Chunks.Rebase.{construct}
use mold_macho.Chunks.Rebase.Construct.{construct-slid}
use mold_macho.Chunks.Rebase.Machine.{slid_stream, slots}
use mold_macho.Chunks.Rebase.Ops.{IsSlot}
use mold_macho.Chunks.Segments.{
  segment_and_offset, segment_and_offset_from, Segment, IsMapped, Locates,
  segment_and_offset-Locates, holds, First, segment_and_offset-First,
}
use mold_macho.Chunks.Unwind.{
  func_addr, UnwindRecord, split_pages, unwind_none, merge_records, assign_personalities, Page,
}
use mold_macho.Chunks.Unwind.Merge.{find, SameEntry, merge_records-find}
use mold_macho.Chunks.Unwind.Pages.{split_pages-CoversFrom, CoversFrom}
use mold_macho.Chunks.Unwind.Personalities.{routines, indexed, assign_personalities-indexed}
use mold_macho.Chunks.WeakBind.{no_library, no_flags, as_bind, weak_le, WeakBind}
use mold_macho.Chunks.WeakBind.Stream.{construct-bound_stream}
use mold_macho.Prelude.{
  ltb, if◌then◌else◌, ◌%◌, length, ◌≡◌, ℕ, ◌<◌, leb, ◌≤◌, none, List, [], false, ◌-◌, ◌*◌, drop,
  ◌++◌, some, ◌^◌, refl, ◌∷◌, ◌+◌, arith, true, ◌==◌, Bool, replicate, sym, map, ap,
}
use mold_macho.Prelude.Bytes.{codes, bytes_eq, All, pad_to}
use mold_macho.Prelude.Fallible.{some_inj}
use mold_macho.Prelude.Int.{negsuc, pos, ℤ}
use mold_macho.Prelude.Sort.{sort}
use mold_macho.Prelude.SortBy.{sort_by, Chain}
use mold_macho.Thunks.Data.{after, before}
use mold_macho.Thunks.Hop.{found}
use mold_macho.Util.Align.{sign_extend, align_to_mod, align_to}
use mold_macho.Util.Align.Laws.{align_to_least, align_to_mod_least, sign_extend-eq}
use mold_macho.Util.CityHash.{hash}
use mold_macho.Util.CityHash.Total.{hash-total}
use mold_macho.Util.Leb.{read_uleb, encode_uleb, write_uleb, encode_sleb, uleb_size, sleb}
use mold_macho.Util.Leb.Signed.{sleb-encode_sleb}
use mold_macho.Util.Leb.Unsigned.{read_uleb-encode_uleb, write_uleb-encode_uleb}
use mold_macho.Util.Names.{name_sort_key, name_cmp, key_cmp}
use mold_macho.Util.Names.Order.{name_sort_key-name_cmp}
use mold_macho.Util.SipHash.{finish, update_u64, new, update}
use mold_macho.Util.SipHash.Finish.{finish-update_append, finish-update_u64}
use mold_macho.Util.SipHash.Streaming.{IsHasher, update-feed, FedBy}
use mold_macho.Util.Text.{trim_space}
use mold_macho.Util.Text.Lines.{Line, IsLine, strip_last, lines, file_of, lines-file_of}
use mold_macho.Util.Text.Trim.{EndsBare, AllSpace, trim_space-StartsBare, StartsBare}
use mold_macho.Util.Words.{push16, read64, read16, read-push, to_le_bytes, read32, push64, push32}

align_to_least_example :
    (0x1234 ≤ align_to 0x1234 (2 ^ 12))
    × (align_to 0x1234 (2 ^ 12) % 2 ^ 12 ≡ 0)
    × (0x1234 ≤ 2 * 2 ^ 12 → align_to 0x1234 (2 ^ 12) ≤ 2 * 2 ^ 12)
align_to_least_example = align_to_least 12 0x1234 2 (omega arith) (omega arith)

align_to_mod_least_example :
    (5 ≤ align_to_mod 5 (2 ^ 3) 3)
    × (align_to_mod 5 (2 ^ 3) 3 % 2 ^ 3 ≡ 3)
    × (5 ≤ 1 * 2 ^ 3 + 3 → align_to_mod 5 (2 ^ 3) 3 ≤ 1 * 2 ^ 3 + 3)
align_to_mod_least_example = align_to_mod_least 3 5 3 1 (omega arith) (omega arith) (omega arith)

sign_extend-eq_example : sign_extend 0x3fe 8 ≡ (
    if ltb (0x3fe % 2 ^ 8) (2 ^ 7) then pos (0x3fe % 2 ^ 8) else negsuc (2 ^ 8 - 1 - 0x3fe % 2 ^ 8))
sign_extend-eq_example = sign_extend-eq 0x3fe 7 (omega arith)

read_uleb-encode_uleb_example : read_uleb (encode_uleb [] 624485 ++ 7 ∷ []) ≡ some (624485, 7 ∷ [])
read_uleb-encode_uleb_example = read_uleb-encode_uleb 624485 (7 ∷ []) (omega arith)

write_uleb-encode_uleb_example :
    (length (encode_uleb [] 300) ≡ uleb_size 300)
    × (write_uleb (1 ∷ 2 ∷ 3 ∷ []) 300 ≡ (
        if leb (uleb_size 300) (length {A = ℕ} (1 ∷ 2 ∷ 3 ∷ []))
        then some (encode_uleb [] 300 ++ drop (uleb_size 300) (1 ∷ 2 ∷ 3 ∷ []), uleb_size 300)
        else none))
write_uleb-encode_uleb_example = write_uleb-encode_uleb (1 ∷ 2 ∷ 3 ∷ []) 300 (omega arith)

sleb-encode_sleb_example :
    (code : List ℕ) × (encode_sleb [] (negsuc 128) ≡ some code)
    × (sleb (code ++ 9 ∷ []) ≡ some (negsuc 128, 9 ∷ []))
sleb-encode_sleb_example = sleb-encode_sleb (negsuc 128) (9 ∷ []) (omega arith)

read-push_example :
    (0x1234 < 2 ^ 16 → read16 (push16 [] 0x1234 ++ 5 ∷ []) ≡ some 0x1234)
    × (0x1234 < 2 ^ 32 → read32 (push32 [] 0x1234 ++ 5 ∷ []) ≡ some 0x1234)
    × (0x1234 < 2 ^ 64 → read64 (push64 [] 0x1234 ++ 5 ∷ []) ≡ some 0x1234)
read-push_example = read-push 0x1234 (5 ∷ [])

abbrev key : List ℕ
key = 0 ∷ 1 ∷ 2 ∷ 3 ∷ 4 ∷ 5 ∷ 6 ∷ 7 ∷ 8 ∷ 9 ∷ 10 ∷ 11 ∷ 12 ∷ 13 ∷ 14 ∷ 15 ∷ []

new-IsHasher : IsHasher (new 128 key)
unfolding IsHasher new
new-IsHasher = (refl, omega arith)

finish-update_append_example :
    finish 1 3 128 (update 1 (update 1 (new 128 key) (1 ∷ 2 ∷ 3 ∷ [])) (4 ∷ 5 ∷ 6 ∷ 7 ∷ 8 ∷ 9 ∷ []))
    ≡ finish 1 3 128 (update 1 (new 128 key) (1 ∷ 2 ∷ 3 ∷ 4 ∷ 5 ∷ 6 ∷ 7 ∷ 8 ∷ 9 ∷ []))
finish-update_append_example =
    finish-update_append 1 3 128 (new 128 key) (1 ∷ 2 ∷ 3 ∷ []) (4 ∷ 5 ∷ 6 ∷ 7 ∷ 8 ∷ 9 ∷ [])
      new-IsHasher

finish-update_u64_example :
    finish 1 3 128 (update_u64 1 (new 128 key) 77)
    ≡ finish 1 3 128 (update 1 (new 128 key) (to_le_bytes 8 77))
finish-update_u64_example = finish-update_u64 1 3 128 (new 128 key) 77 new-IsHasher (omega arith)

update-feed_example : FedBy 1 (new 128 key) (1 ∷ 2 ∷ []) (update 1 (new 128 key) (1 ∷ 2 ∷ []))
update-feed_example = update-feed 1 (new 128 key) (1 ∷ 2 ∷ []) new-IsHasher

abbrev text_segment : Segment
text_segment = record { name = codes "__TEXT"; vmaddr = 0x1000; vmsize = 0x1000 }

abbrev data_segment : Segment
data_segment = record { name = codes "__DATA"; vmaddr = 0x2000; vmsize = 0x1000 }

abbrev segments : List Segment
segments = text_segment ∷ data_segment ∷ []

located : (a i off : ℕ) → segment_and_offset segments a ≡ some (i, off) → IsMapped segments a
located a i off h unmapped = cc

segment_and_offset-First_example : First segments 0x2010 (segment_and_offset segments 0x2010)
segment_and_offset-First_example = segment_and_offset-First segments 0x2010

slots_located : All (IsSlot segments) (0x2010 ∷ 0x2008 ∷ [])
unfolding segment_and_offset segment_and_offset_from holds bytes_eq
slots_located =
    ((located 0x2010 1 0x10 refl, omega arith), ((located 0x2008 1 8 refl, omega arith), tt))

construct-slid_example :
    (bytes : List ℕ) × (construct false segments (0x2010 ∷ 0x2008 ∷ []) ≡ some bytes)
    × (slid_stream segments bytes ≡ some (sort (0x2010 ∷ 0x2008 ∷ [])))
construct-slid_example = construct-slid segments (0x2010 ∷ 0x2008 ∷ []) (omega arith) slots_located

abbrev a_record : UnwindRecord
a_record = record {
  isec = 0;
  input_offset = 0x10;
  code_len = 8;
  encoding = 0x0200_1000;
  personality_sym = 5;
  lsda_isec = unwind_none;
  lsda_off = 0;
  fde_idx = unwind_none;
}

abbrev next_record : UnwindRecord
next_record = record a_record { input_offset = 0x18 }

abbrev records : List UnwindRecord
records = a_record ∷ next_record ∷ []

abbrev base_addr : ℕ → ℕ
base_addr isec = 0x1000

merge_records-find_example :
    SameEntry false
      (find base_addr 0x1019 none records)
      (find base_addr 0x1019 none (merge_records false records))
merge_records-find_example =
    merge_records-find false base_addr 0x1019 records (unfold func_addr in (omega arith, tt))

split_pages-CoversFrom_example :
    (pages : List Page) × (split_pages base_addr records ≡ some pages)
    × CoversFrom base_addr 0 records pages
split_pages-CoversFrom_example = split_pages-CoversFrom base_addr records

assign_personalities-indexed_example :
    assign_personalities records ≡ indexed records (routines [] records)
assign_personalities-indexed_example = assign_personalities-indexed records

abbrev symbol_names : ℕ → List ℕ
symbol_names id = if id == 0 then codes "_puts" else codes "_environ"

abbrev libraries : ℕ → ℤ
libraries id = if id == 0 then pos 1 else negsuc 1

abbrev weak_refs : ℕ → Bool
weak_refs id = id == 1

abbrev binds : List Bind
binds =
    record { at = 0x2010; sym = 0; plus = pos 0 }
    ∷ record { at = 0x2008; sym = 1; plus = negsuc 7 }
    ∷ []

binds-Bindable : All (Bindable segments symbol_names libraries) binds
binds-Bindable =
    let slots = slots_located in
    (
      (slots.0, ground arith, omega arith, omega arith),
      ((slots.1.0, ground arith, omega arith, omega arith), tt),
    )

same_data_segment : SameSegment segments 0x2008 0x2010
unfolding segment_and_offset segment_and_offset_from holds bytes_eq
same_data_segment i off found =
    let e : ◌≡◌ {A = ℕ × ℕ} (1, 8) (i, off) = some_inj found in
    subst (λ (k : ℕ). (off' : ℕ) × (segment_and_offset segments 0x2010 ≡ some (k, off')))
      (ap (λ (r : ℕ × ℕ). r.0) e) (0x10, refl)

binds-Apart : Apart segments binds
binds-Apart = (
  ((λ e. absurd (omega arith)), ((λ e. absurd (omega arith)), tt)),
  (((λ e. same_data_segment), ((λ e. absurd (omega arith)), tt)), tt),
)

construct-bound_example :
    (bytes : List ℕ) × (sorted : List Bind) × (Bind.construct segments symbol_names libraries
        weak_refs binds
      ≡ some bytes)
    × Perm sorted binds
    × Chain (KeyLe symbol_names libraries) sorted
    × (bound_stream segments start bytes
        ≡ some (
            made_of segments symbol_names
              (in_library libraries)
              (import_flags weak_refs)
              none
              sorted))
construct-bound_example =
    construct-bound segments symbol_names libraries weak_refs binds (omega arith) binds-Bindable
      binds-Apart

bind_ops-bound_example :
    (ops : List Op) × (bind_ops segments symbol_names
        (in_library libraries)
        (import_flags weak_refs)
        binds
      ≡ some ops)
    × (bound segments 0 0 start ops
        ≡ some (
            made_of segments symbol_names
              (in_library libraries)
              (import_flags weak_refs)
              none
              binds))
bind_ops-bound_example =
    bind_ops-bound segments symbol_names (in_library libraries) (import_flags weak_refs) binds
      (slots_located.0, (slots_located.1.0, tt)) (Apart-Steps segments binds binds-Apart)

construct-read_table_example :
    read_table 0x1000 (FunctionStarts.construct true 0x1000 (0x1010 ∷ 0x1008 ∷ 0x1010 ∷ []))
    ≡ some (dedup (sort (0x1010 ∷ 0x1008 ∷ 0x1010 ∷ [])))
construct-read_table_example =
    construct-read_table 0x1000 (0x1010 ∷ 0x1008 ∷ 0x1010 ∷ [])
      ((omega arith, omega arith), ((omega arith, omega arith), ((omega arith, omega arith), tt)))

abbrev stubs : List LazyStub
stubs = record { stub_sym = 0; ptr_addr = 0x2010 } ∷ record { stub_sym = 1; ptr_addr = 0x2008 } ∷ []

stubs-IsStub : All (IsStub segments symbol_names libraries weak_refs) stubs
stubs-IsStub =
    let slots = slots_located in
    ((slots.0, ground arith, omega arith), ((slots.1.0, ground arith, omega arith), tt))

stubs_small :
    (bytes offsets : List ℕ)
    → LazyBind.construct segments symbol_names libraries weak_refs stubs ≡ some (bytes, offsets)
    → length bytes < 2 ^ 32
unfolding LazyBind.construct lazy_loop lazy_record encode_uleb pad_to segment_and_offset
    segment_and_offset_from holds bytes_eq Bind.encode_ops Bind.encode_op
stubs_small bytes offsets h =
    subst (λ (r : List ℕ × List ℕ). length r.0 < 2 ^ 32) (some_inj h) (omega arith)

construct-Enters_example :
    (bytes : List ℕ) × (offsets : List ℕ) × (LazyBind.construct segments symbol_names libraries
        weak_refs stubs
      ≡ some (bytes, offsets))
    × Enters segments symbol_names libraries weak_refs bytes stubs offsets
construct-Enters_example =
    construct-Enters segments symbol_names libraries weak_refs stubs (omega arith) stubs-IsStub
      stubs_small

name_sort_key-name_cmp_example :
    key_cmp (name_sort_key (1 ∷ 2 ∷ [])) (name_sort_key (1 ∷ 2 ∷ 0 ∷ []))
    ≡ name_cmp (1 ∷ 2 ∷ []) (1 ∷ 2 ∷ 0 ∷ [])
name_sort_key-name_cmp_example =
    name_sort_key-name_cmp (1 ∷ 2 ∷ []) (1 ∷ 2 ∷ 0 ∷ []) (omega arith, (omega arith, tt))
      (omega arith, (omega arith, (omega arith, tt)))

trim_space-StartsBare_example :
    (before result after : List ℕ) × (trim_space (0x20 ∷ 0x61 ∷ 0x0a ∷ []) ≡ some result)
    × (◌≡◌ {A = List ℕ} (0x20 ∷ 0x61 ∷ 0x0a ∷ []) (before ++ (result ++ after)))
    × AllSpace before
    × AllSpace after
    × StartsBare result
    × EndsBare result
trim_space-StartsBare_example = trim_space-StartsBare (0x20 ∷ 0x61 ∷ 0x0a ∷ [])

hash-total_example : (h : ℕ) × (hash (replicate 130 7) ≡ some h)
hash-total_example = hash-total (replicate 130 7)

abbrev weak_binds : List WeakBind
weak_binds = (0, 0x2010) ∷ (0, 0x2008) ∷ []

weak_binds-Apart : Apart segments (map as_bind weak_binds)
weak_binds-Apart = (
  ((λ e. absurd (omega arith)), ((λ e. absurd (omega arith)), tt)),
  (((λ e. same_data_segment), ((λ e. absurd (omega arith)), tt)), tt),
)

construct-bound_stream_example :
    (bytes : List ℕ) × (sorted : List WeakBind) × (WeakBind.construct segments symbol_names
        (1 ∷ [])
        weak_binds
      ≡ some bytes)
    × Perm sorted weak_binds
    × Chain (WeakLe symbol_names) sorted
    × (bound_stream segments start bytes
        ≡ some (made_of segments symbol_names no_library no_flags none (map as_bind sorted)))
construct-bound_stream_example =
    construct-bound_stream segments symbol_names (1 ∷ []) weak_binds (omega arith)
      (ground arith, tt) ((slots_located.0, ground arith), ((slots_located.1.0, ground arith), tt))
      weak_binds-Apart

abbrev two_lines : List Line
two_lines = (codes "_a", true) ∷ (codes "_b", false) ∷ []

two_lines-IsLine : All IsLine two_lines
unfolding strip_last
two_lines-IsLine = (((refl, (refl, tt)), refl), (((refl, (refl, tt)), refl), tt))

lines-file_of_example : lines (file_of two_lines) ≡ codes "_a" ∷ codes "_b" ∷ []
lines-file_of_example = lines-file_of two_lines two_lines-IsLine
