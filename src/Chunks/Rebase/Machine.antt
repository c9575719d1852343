-- ===== src/Chunks/Rebase/Machine.antt =====
-- What the loader does with a rebase stream, from the format's description: an address that
-- opcodes move, and the slots that are slid.
use mold_macho.Chunks.Rebase.{Op, add_addr, seg_offset, rebase}
use mold_macho.Chunks.Segments.{Segment}
use mold_macho.Prelude.{
  suc, ℕ, ◌∷◌, Option, ◌*◌, zero, ◌%◌, [], ◌++◌, ◌^◌, get_elem?, ◌+◌, some, List, ◌==◌, length,
  if◌then◌else◌, ◌/◌, none, leb, ◌&&◌, ltb,
}
use mold_macho.Prelude.Fallible.{◌>>=◌}
use mold_macho.Util.Leb.{read_uleb}

-- The slots of `n` pointers in a row.
unfoldable pub slots : ℕ → ℕ → List ℕ
slots addr zero = []
slots addr (suc n) = addr ∷ slots (addr + 8) n

-- `n` slots in a row, each of which must begin inside the current segment, from `lo` to `hi`.
unfoldable pub slide : ℕ → ℕ → ℕ → ℕ → Option (List ℕ)
slide lo hi addr zero = some []
slide lo hi addr (suc n) =
    let rest = slide lo hi (addr + 8) n >>= (λ later. some (addr ∷ later)) in
    if leb lo addr && ltb addr hi then rest else none

-- The addresses slid by a list of opcodes, from the current address on, in a segment from `lo` to
-- `hi`. An unknown segment and a slot outside the current one are refused.
unfoldable pub slid : List Segment → ℕ → ℕ → ℕ → List Op → Option (List ℕ)
unfolding slide
slid segs lo hi addr [] = some []
slid segs lo hi addr (seg_offset seg off ∷ ops) = do
  segment ← get_elem? segs seg
  slid segs segment.vmaddr (segment.vmaddr + segment.vmsize) (segment.vmaddr + off) ops
slid segs lo hi addr (add_addr delta ∷ ops) = slid segs lo hi ((addr + delta) % 2 ^ 64) ops
slid segs lo hi addr (rebase n ∷ ops) = do
  here ← slide lo hi addr n
  rest ← slid segs lo hi (addr + n * 8) ops
  some (here ++ rest)

-- The bytes of the stream: an opcode in the high four bits, an immediate in the low four, and
-- ULEB128 operands. An opcode that the linker does not use is refused.
unfoldable pub next_op : ℕ → List ℕ → Option (List Op × List ℕ)
next_op byte rest =
    let imm = byte % 16 in
    let opcode = byte / 16 in
    if opcode == 1
    then (if imm == 1 then some ([], rest) else none)
    else if opcode == 2
    then read_uleb rest >>= (λ (off, rest'). some (seg_offset imm off ∷ [], rest'))
    else if opcode == 3
    then read_uleb rest >>= (λ (delta, rest'). some (add_addr delta ∷ [], rest'))
    else if opcode == 4
    then some (add_addr (imm * 8) ∷ [], rest)
    else if opcode == 5
    then some (rebase imm ∷ [], rest)
    else if opcode == 6
    then read_uleb rest >>= (λ (count, rest'). some (rebase count ∷ [], rest'))
    else none

-- A stream ends at the opcode 0. Each opcode takes a byte, which bounds the fuel.
unfoldable pub read_ops : ℕ → List ℕ → Option (List Op)
unfolding next_op
read_ops fuel [] = none
read_ops zero (byte ∷ rest) = none
read_ops (suc fuel) (byte ∷ rest) =
    let more =
      next_op byte rest >>= (λ (op, rest'). read_ops fuel rest' >>= (λ ops. some (op ++ ops))) in
    if byte == 0 then some [] else more

-- What the loader slides, given a whole stream. An empty one slides nothing.
unfoldable pub slid_stream : List Segment → List ℕ → Option (List ℕ)
unfolding read_ops slid
slid_stream segs [] = some []
slid_stream segs (byte ∷ rest) = read_ops (suc (length rest)) (byte ∷ rest) >>= slid segs 0 0 0
