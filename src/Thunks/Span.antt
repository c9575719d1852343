-- ===== src/Thunks/Span.antt =====
-- macho/thunks.rs: whether the code may span more than a branch reaches, from the chunks' headers.
pub mod Range
pub mod Bound
use mold_macho.Prelude.{
  false, ◌&&◌, ◌/◌, ltb, ◌-◌, drop, ◌+◌, Option, bit_and, max, ◌==◌, not, [], ◌*◌, min, ◌∷◌, ℕ,
  some, take, suc, if◌then◌else◌, ◌||◌, List, none, ◌^◌, Bool, true,
}
use mold_macho.Prelude.Bytes.{bytes_eq}
use mold_macho.Prelude.Fallible.{◌>>=◌}
use mold_macho.Thunks.Data.{max_thunk_size, thunk_align, batch_size}

-- What the bounds tell apart of a chunk; an output section has its number of members.
pub data Kind : Type 0 where
  mach_header unwind_info other : Kind
  output_section : ℕ → Kind

pub record Chunk : Type 0 where
  pub kind : Kind
  pub segname : List ℕ
  pub flags : ℕ
  pub p2align : ℕ
  pub size : ℕ
  pub addr : ℕ

-- S_ATTR_PURE_INSTRUCTIONS | S_ATTR_SOME_INSTRUCTIONS.
abbrev instructions : ℕ
instructions = 0x80000400

unfoldable pub is_code : Chunk → Bool
is_code hdr = not (bit_and hdr.flags instructions == 0) && ltb 0 hdr.size

unfoldable pub first_code : List Chunk → Option ℕ
unfolding is_code
first_code [] = none
first_code (hdr ∷ chunks) =
    let later = first_code chunks >>= (λ i. some (suc i)) in if is_code hdr then some 0 else later

abbrev pub last_of : Option ℕ → Bool → Option ℕ
last_of (some i) here = some (suc i)
last_of none true = some 0
last_of none false = none

-- `rposition`.
unfoldable pub last_code : List Chunk → Option ℕ
unfolding is_code
last_code [] = none
last_code (hdr ∷ chunks) = last_of (last_code chunks) (is_code hdr)

unfoldable pub code_range : List Chunk → Option (ℕ × ℕ)
unfolding first_code last_code
code_range chunks = do first ← first_code chunks; last ← last_code chunks; some (first, last)

unfoldable pub div_ceil : ℕ → ℕ → ℕ
div_ceil a b = (a + b - 1) / b

unfoldable pub thunks_room : Chunk → ℕ → ℕ
unfolding div_ceil
thunks_room hdr members =
    min members (2 * div_ceil hdr.size batch_size + 1)
    * (max_thunk_size + thunk_align + 2 ^ hdr.p2align)

unfoldable pub chunk_room : Chunk → List ℕ → Bool → Option ℕ
unfolding bytes_eq is_code thunks_room
chunk_room hdr segname grows =
    let room = hdr.size + 2 ^ hdr.p2align - 1 in
    let sized : Option ℕ = elim hdr.kind [
      | mach_header ↦ none
      | unwind_info ↦ none
      | other ↦ some room
      | output_section members ↦
          some (if grows && is_code hdr then room + thunks_room hdr members else room)
    ] in
    if bytes_eq hdr.segname segname then sized else none

-- The sum of the rooms, if they are all known.
unfoldable pub rooms : List Chunk → List ℕ → Bool → Option ℕ
unfolding chunk_room
rooms [] segname grows = some 0
rooms (hdr ∷ chunks) segname grows = do
  room ← chunk_room hdr segname grows
  rest ← rooms chunks segname grows
  some (room + rest)

-- The chunks from `first` to `last`, with the segment of the first.
unfoldable pub span_room : List Chunk → Option ℕ
unfolding rooms
span_room [] = none
span_room (hdr ∷ chunks) = rooms (hdr ∷ chunks) hdr.segname false

unfoldable pub need_thunks : ℕ → ℕ → Bool → List Chunk → Option Bool
unfolding code_range span_room
need_thunks branch_range thunk_size no_branch_islands chunks =
    if thunk_size == 0 || no_branch_islands then some false else elim (code_range chunks) [
      | none ↦ some false
      | some (first, last) ↦
          span_room (take (last + 1 - first) (drop first chunks))
          >>= (λ span. some (ltb (branch_range / 2) span))
    ]

-- The least address and the greatest end of the code chunks so far.
unfoldable pub code_bounds : List Chunk → ℕ → ℕ → ℕ × ℕ
unfolding is_code
code_bounds [] lo hi = (lo, hi)
code_bounds (hdr ∷ chunks) lo hi =
    let within = code_bounds chunks (min lo hdr.addr) (max hi (hdr.addr + hdr.size)) in
    let without = code_bounds chunks lo hi in if is_code hdr then within else without

unfoldable pub code_span : List Chunk → ℕ
unfolding code_bounds
code_span chunks = let (lo, hi) = code_bounds chunks 0xffffffffffffffff 0 in hi - lo
