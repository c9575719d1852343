-- ===== src/Thunks/Span/Bound.antt =====
-- Where macho/thunks.rs finds that no thunks are needed, the placed code spans no more than a branch
-- reaches.
use mathlib.Core.Path.{subst}
use mold_macho.Prelude.{
  ◌≤◌, max, [], ◌≡◌, ◌∷◌, ◌+◌, ◌-◌, false, inr, List, Bool-cases, ℕ, min, arith, ◌^◌, inl, some,
  ◌<◌, Option, none, sym, if◌then◌else◌, Bool, suc, drop, take, ◌∙◌, Option-cases, ◌/◌, refl, ◌==◌,
  ltb→ge, ltb,
}
use mold_macho.Prelude.Bits.{two_pow-pos}
use mold_macho.Prelude.Bytes.{All, bytes_eq, bytes_eq_iff, All-take, All-drop}
use mold_macho.Prelude.Fallible.{some_inj, ◌>>=◌, >>=-eq-some}
use mold_macho.Thunks.Span.{
  mach_header, unwind_info, other, output_section, Chunk, Kind, is_code, first_code, last_code,
  code_range, chunk_room, rooms, span_room, need_thunks, code_bounds, code_span,
}
use mold_macho.Thunks.Span.Range.{
  ArePlaced, Between, Follows, drop-ArePlaced, first_code-drop, last_code-drop, last_code-take,
  none_first, none_last, take-ArePlaced,
}

code_bounds-within :
    (low high : ℕ) (chunks : List Chunk) (lo hi : ℕ)
    → All (Between low high) chunks
    → low ≤ lo
    → hi ≤ high
    → (low ≤ (code_bounds chunks lo hi).0) × ((code_bounds chunks lo hi).1 ≤ high)
unfolding code_bounds
code_bounds-within low high [] lo hi all hl hh = (hl, hh)
code_bounds-within low high (hdr ∷ chunks) lo hi (h, hs) hl hh = elim (Bool-cases (is_code hdr)) [
  | inl code ↦
      let (ge, le) = h code in
      rw code (
        code_bounds-within low high chunks (min lo hdr.addr) (max hi (hdr.addr + hdr.size)) hs
          (omega arith) (omega arith))
  | inr plain ↦ rw plain (code_bounds-within low high chunks lo hi hs hl hh)
]

abbrev sized : Chunk → Option ℕ
sized hdr =
    let room = hdr.size + 2 ^ hdr.p2align - 1 in
    elim hdr.kind [
      | mach_header ↦ none
      | unwind_info ↦ none
      | other ↦ some room
      | output_section members ↦ some room
    ]

chunk_room-some :
    (hdr : Chunk) (segname : List ℕ) (room : ℕ)
    → chunk_room hdr segname false ≡ some room
    → (hdr.segname ≡ segname) × (room ≡ hdr.size + 2 ^ hdr.p2align - 1)
unfolding chunk_room
chunk_room-some hdr segname room h = elim (Bool-cases (bytes_eq hdr.segname segname)) [
  | inr e ↦
      let h' : none ≡ some room =
        subst (λ (b : Bool). (if b then sized hdr else none) ≡ some room) e h in
      absurd cc
  | inl e ↦
      let h' : sized hdr ≡ some room =
        subst (λ (b : Bool). (if b then sized hdr else none) ≡ some room) e h in
      ((bytes_eq_iff hdr.segname segname).0 e, of_kind hdr.kind h')
]
  where
    of_kind :
        (kind : Kind)
        → sized (record hdr { kind = kind }) ≡ some room
        → room ≡ hdr.size + 2 ^ hdr.p2align - 1
    of_kind mach_header h = absurd cc
    of_kind unwind_info h = absurd cc
    of_kind other h = some_inj (sym h)
    of_kind (output_section members) h = some_inj (sym h)

-- What lies in a chunk's room and those after it, less the chunk's own padding.
abbrev In : Chunk → ℕ → Chunk → Type 0
In hdr room c = (hdr.addr ≤ c.addr) × (c.addr + c.size + 2 ^ hdr.p2align ≤ hdr.addr + room + 1)

In-later :
    (hdr next : Chunk) (rest room : ℕ) (chunks : List Chunk)
    → Follows hdr next
    → room ≡ hdr.size + 2 ^ hdr.p2align - 1 + rest
    → All (In next rest) chunks
    → All (In hdr room) chunks
In-later hdr next rest room [] follows e h = tt
In-later hdr next rest room (c ∷ chunks) (ge, lt) e (h, hs) =
    (omega (arith, two_pow-pos hdr.p2align), In-later hdr next rest room chunks (ge, lt) e hs)

rooms_cons :
    (segname : List ℕ) (hdr : Chunk) (chunks : List Chunk) (room : ℕ)
    → rooms (hdr ∷ chunks) segname false ≡ some room
    → (rest : ℕ) × (rooms chunks segname false ≡ some rest)
      × (hdr.segname ≡ segname)
      × (room ≡ hdr.size + 2 ^ hdr.p2align - 1 + rest)
unfolding rooms
rooms_cons segname hdr chunks room h =
    let (own, e, h') =
      >>=-eq-some (chunk_room hdr segname false)
        (λ own. rooms chunks segname false >>= (λ rest. some (own + rest))) h in
    let (rest, e', h'') = >>=-eq-some (rooms chunks segname false) (λ rest. some (own + rest)) h' in
    let (seg, size) = chunk_room-some hdr segname own e in
    let sum : own + rest ≡ room = some_inj h'' in (rest, e', seg, omega arith)

rooms-In :
    (segname : List ℕ) (hdr : Chunk) (chunks : List Chunk) (room : ℕ)
    → rooms (hdr ∷ chunks) segname false ≡ some room
    → ArePlaced segname (hdr ∷ chunks)
    → All (In hdr room) (hdr ∷ chunks)
rooms-In segname hdr [] room h placed =
    let (rest, e, seg, sum) = rooms_cons segname hdr [] room h in
    ((omega arith, omega (arith, two_pow-pos hdr.p2align)), tt)
rooms-In segname hdr (next ∷ chunks) room h (follows, placed) =
    let (rest, e, seg, sum) = rooms_cons segname hdr (next ∷ chunks) room h in
    let (rest', e', seg', sum') = rooms_cons segname next chunks rest e in
    (
      (omega arith, omega (arith, two_pow-pos hdr.p2align)),
      In-later hdr next rest room (next ∷ chunks) (follows seg seg') sum
          (rooms-In segname next chunks rest e placed),
    )

slice_within :
    (slice chunks : List Chunk) (span : ℕ)
    → ((low high : ℕ) → All (Between low high) slice → All (Between low high) chunks)
    → span_room slice ≡ some span
    → ((segname : List ℕ) → ArePlaced segname slice)
    → All (λ c. c.addr < 2 ^ 64) slice
    → code_span chunks ≤ span
unfolding span_room code_span
slice_within [] chunks span outer h placed small = let e : none ≡ some span = h in absurd cc
slice_within (hdr ∷ slice) chunks span outer h placed small =
    let all = rooms-In hdr.segname hdr slice span h (placed hdr.segname) in
    let (ge, le) =
      code_bounds-within hdr.addr (hdr.addr + span) chunks 0xffffffffffffffff 0
        (outer hdr.addr (hdr.addr + span)
          (between hdr.addr (hdr.addr + span) hdr span (hdr ∷ slice) refl refl all))
        (omega arith) (omega arith) in
    omega arith
  where
    between :
        (low high : ℕ) (hdr : Chunk) (span : ℕ) (chunks : List Chunk)
        → low ≡ hdr.addr
        → high ≡ hdr.addr + span
        → All (In hdr span) chunks
        → All (Between low high) chunks
    between low high hdr span [] e e' h = tt
    between low high hdr span (c ∷ chunks) e e' (h, hs) =
        (λ code. omega (arith, two_pow-pos hdr.p2align), between low high hdr span chunks e e' hs)

-- An image without code spans nothing.
no_code :
    (chunks : List Chunk) → ((low high : ℕ) → All (Between low high) chunks) → code_span chunks ≡ 0
unfolding code_span
no_code chunks all =
    let (ge, le) =
      code_bounds-within 0 0 chunks 0xffffffffffffffff 0 (all 0 0) (omega arith) (omega arith) in
    omega arith

abbrev slice : List Chunk → ℕ → ℕ → List Chunk
slice chunks first last = take (last + 1 - first) (drop first chunks)

need_thunks-slice :
    (branch_range thunk_size : ℕ) (chunks : List Chunk) (first last : ℕ)
    → 0 < thunk_size
    → first_code chunks ≡ some first
    → last_code chunks ≡ some last
    → need_thunks branch_range thunk_size false chunks
      ≡ (span_room (slice chunks first last) >>= (λ span. some (ltb (branch_range / 2) span)))
unfolding need_thunks code_range
need_thunks-slice branch_range thunk_size chunks first last h e e' =
    let nonzero : (thunk_size == 0) ≡ false = ground arith in rw (nonzero, e, e') refl

span-within :
    (branch_range thunk_size : ℕ) (chunks : List Chunk) (first last : ℕ)
    → 0 < thunk_size
    → need_thunks branch_range thunk_size false chunks ≡ some false
    → ((segname : List ℕ) → ArePlaced segname chunks)
    → All (λ c. c.addr < 2 ^ 64) chunks
    → first_code chunks ≡ some first
    → last_code chunks ≡ some last
    → code_span chunks ≤ branch_range / 2
span-within branch_range thunk_size chunks first last h none_needed placed small e e' =
    let (span, known, same) =
      >>=-eq-some (span_room (slice chunks first last)) (λ span. some (ltb (branch_range / 2) span))
        (sym (need_thunks-slice branch_range thunk_size chunks first last h e e') ∙ none_needed) in
    let fits = ltb→ge (branch_range / 2) span (some_inj same) in
    let (le, e'') = last_code-drop chunks first last e e' in
    let count : last + 1 - first ≡ suc (last - first) = omega arith in
    let within =
      slice_within (slice chunks first last) chunks span
        (λ low high all. first_code-drop chunks first low high e (
          last_code-take (drop first chunks) (last - first) low high e''
            (subst (λ n. All (Between low high) (take n (drop first chunks))) count all)))
        known
        (λ segname.
          take-ArePlaced (last + 1 - first) segname (drop first chunks)
            (drop-ArePlaced first segname chunks (placed segname)))
        (All-take (λ c. c.addr < 2 ^ 64) (last + 1 - first) (drop first chunks)
          (All-drop (λ c. c.addr < 2 ^ 64) first chunks small)) in
    omega arith

-- For chunks at 64-bit addresses, of which those of a segment that stand one after the other are
-- placed where their alignments let them begin: if `need_thunks` finds that an image which may have
-- thunks needs none, its code spans no more than a branch reaches.
pub need_thunks-code_span :
    (branch_range thunk_size : ℕ) (chunks : List Chunk)
    → 0 < thunk_size
    → need_thunks branch_range thunk_size false chunks ≡ some false
    → ((segname : List ℕ) → ArePlaced segname chunks)
    → All (λ c. c.addr < 2 ^ 64) chunks
    → code_span chunks ≤ branch_range / 2
need_thunks-code_span branch_range thunk_size chunks h none_needed placed small =
    elim (Option-cases (first_code chunks)) [
      | inl e ↦ omega (arith, no_code chunks (λ low high. none_first chunks low high e))
      | inr (first, e) ↦ elim (Option-cases (last_code chunks)) [
        | inl e' ↦ omega (arith, no_code chunks (λ low high. none_last chunks low high e'))
        | inr (last, e') ↦
            span-within branch_range thunk_size chunks first last h none_needed placed small e e'
      ]
    ]
