-- ===== src/Chunks/Bind/Machine.antt =====
-- The loader's bind machine, from the format's description: opcodes set the pieces of its state,
-- and BIND writes the symbol into the slot at its address, which then moves past it.
use mold_macho.Chunks.Bind.{symbol, pointer_type, Op, dylib, bind, seg_offset, add_addr, addend}
use mold_macho.Chunks.Segments.{Segment}
use mold_macho.Prelude.{
  ℕ, List, ◌∷◌, [], ◌^◌, some, Bool, ◌+◌, Option, ◌%◌, get_elem?, ◌&&◌, none, if◌then◌else◌, true,
  ◌==◌, suc, length, ◌/◌, ◌-◌, zero, ltb, leb,
}
use mold_macho.Prelude.Fallible.{◌>>=◌, is_some}
use mold_macho.Prelude.Int.{ℤ, negsuc, pos}
use mold_macho.Util.Leb.{sleb, read_uleb}

-- The state, which is also what a bind is made with.
pub record Dyld : Type 0 where
  pub ordinal : Option ℤ
  pub symbol_name : Option (List ℕ × ℕ)
  pub typed : Bool
  pub address : ℕ
  pub plus : ℤ

-- The binds made by a list of opcodes, in a segment from `lo` to `hi`. An unknown segment, a bind
-- with no symbol or no type and one outside the current segment are refused.
unfoldable pub bound : List Segment → ℕ → ℕ → Dyld → List Op → Option (List Dyld)
bound segs lo hi m [] = some []
bound segs lo hi m (dylib ord ∷ ops) = bound segs lo hi (record m { ordinal = some ord }) ops
bound segs lo hi m (symbol name flags ∷ ops) =
    bound segs lo hi (record m { symbol_name = some (name, flags) }) ops
bound segs lo hi m (pointer_type ∷ ops) = bound segs lo hi (record m { typed = true }) ops
bound segs lo hi m (seg_offset seg off ∷ ops) = do
  segment ← get_elem? segs seg
  bound segs segment.vmaddr (segment.vmaddr + segment.vmsize)
      (record m { address = segment.vmaddr + off }) ops
bound segs lo hi m (add_addr delta ∷ ops) =
    bound segs lo hi (record m { address = (m.address + delta) % 2 ^ 64 }) ops
bound segs lo hi m (addend plus ∷ ops) = bound segs lo hi (record m { plus = plus }) ops
bound segs lo hi m (bind ∷ ops) =
    let rest = bound segs lo hi (record m { address = m.address + 8 }) ops in
    if leb lo m.address && ltb m.address hi
    then (if m.typed && is_some m.symbol_name then rest >>= (λ made. some (m ∷ made)) else none)
    else none

-- A name ends at a zero byte.
unfoldable pub read_name : List ℕ → Option (List ℕ × List ℕ)
read_name [] = none
read_name (c ∷ rest) =
    let more = read_name rest >>= (λ (name, rest'). some (c ∷ name, rest')) in
    if c == 0 then some ([], rest) else more

-- A special library is the immediate with its sign extended, unless it is 0.
unfoldable pub special : ℕ → ℤ
special zero = pos 0
special (suc imm) = negsuc (14 - imm)

-- The bytes of the stream: an opcode in the high four bits, an immediate in the low four, and
-- operands. An opcode that the linker does not use is refused.
unfoldable pub next_op : ℕ → List ℕ → Option (Op × List ℕ)
unfolding special
next_op byte rest =
    let imm = byte % 16 in
    let opcode = byte / 16 in
    if opcode == 1
    then some (dylib (pos imm), rest)
    else if opcode == 2
    then read_uleb rest >>= (λ (ord, rest'). some (dylib (pos ord), rest'))
    else if opcode == 3
    then some (dylib (special imm), rest)
    else if opcode == 4
    then read_name rest >>= (λ (name, rest'). some (symbol name imm, rest'))
    else if opcode == 5
    then (if imm == 1 then some (pointer_type, rest) else none)
    else if opcode == 6
    then sleb rest >>= (λ (plus, rest'). some (addend plus, rest'))
    else if opcode == 7
    then read_uleb rest >>= (λ (off, rest'). some (seg_offset imm off, rest'))
    else if opcode == 8
    then read_uleb rest >>= (λ (delta, rest'). some (add_addr delta, rest'))
    else if opcode == 9
    then some (bind, rest)
    else none

-- A stream ends at the opcode 0. Each opcode takes a byte, which bounds the fuel.
unfoldable pub read_ops : ℕ → List ℕ → Option (List Op)
unfolding next_op
read_ops fuel [] = none
read_ops zero (byte ∷ rest) = none
read_ops (suc fuel) (byte ∷ rest) =
    let more =
      next_op byte rest >>= (λ (op, rest'). read_ops fuel rest' >>= (λ ops. some (op ∷ ops))) in
    if byte == 0 then some [] else more

-- The binds that the loader makes, given a whole stream. An empty one makes none.
unfoldable pub bound_stream : List Segment → Dyld → List ℕ → Option (List Dyld)
unfolding read_ops bound
bound_stream segs m [] = some []
bound_stream segs m (byte ∷ rest) = read_ops (suc (length rest)) (byte ∷ rest) >>= bound segs 0 0 m
