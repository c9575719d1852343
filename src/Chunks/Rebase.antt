-- ===== src/Chunks/Rebase.antt =====
-- macho/chunks/rebase_info.rs: the rebase opcode stream.
pub mod Machine
pub mod Ops
pub mod Stream
pub mod Construct
use mold_macho.Chunks.Segments.{Segment, segment_and_offset}
use mold_macho.Prelude.{
  ◌%◌, Option, length, ltb, suc, ◌-◌, ◌∷◌, some, leb, drop, ◌==◌, ◌^◌, ◌+◌, ◌/◌, zero, ◌++◌, ℕ,
  ◌||◌, [], if◌then◌else◌, none, get_elem?, Bool, ◌*◌, List, ◌&&◌, bit_or,
}
use mold_macho.Prelude.Bytes.{pad_to}
use mold_macho.Prelude.Fallible.{◌>>=◌}
use mold_macho.Prelude.Sort.{sort}
use mold_macho.Util.Leb.{encode_uleb}

pub data Op : Type 0 where
  seg_offset : ℕ → ℕ → Op
  add_addr : ℕ → Op
  rebase : ℕ → Op

-- The pointers after the one at `addr - 8` that a run goes on with: each follows the one before
-- it and lies below the segment's end.
unfoldable pub run_length : ℕ → ℕ → List ℕ → ℕ
run_length seg_end next [] = 0
run_length seg_end next (loc ∷ locs) =
    let more = suc (run_length seg_end (next + 8) locs) in
    if loc == next && ltb loc seg_end then more else 0

-- What the loop of `rebase_ops` keeps: the bounds of the current segment and the machine's address.
pub record Cursor : Type 0 where
  pub seg_start : ℕ
  pub seg_end : ℕ
  pub cur_addr : ℕ

-- The opcode that enters the segment of `addr`, and the segment's bounds.
unfoldable pub enter_segment : List Segment → ℕ → Option (List Op × ℕ × ℕ)
enter_segment segs addr = do
  (seg, off) ← segment_and_offset segs addr
  segment ← get_elem? segs seg
  some (seg_offset seg off ∷ [], addr - off, addr - off + segment.vmsize)

-- The opcode that moves to `addr`, if one is needed, and the segment's bounds after it.
unfoldable pub move_to : List Segment → Cursor → ℕ → Option (List Op × ℕ × ℕ)
unfolding enter_segment
move_to segs c addr =
    if ltb addr c.seg_start || leb c.seg_end addr
    then enter_segment segs addr
    else if addr == c.cur_addr
    then some ([], c.seg_start, c.seg_end)
    else some (add_addr ((addr + 2 ^ 64 - c.cur_addr) % 2 ^ 64) ∷ [], c.seg_start, c.seg_end)

-- A round takes one location at least, so as many rounds as there are locations are enough.
unfoldable pub rebase_ops_loop : ℕ → List Segment → Cursor → List ℕ → Option (List Op)
unfolding move_to run_length
rebase_ops_loop fuel segs c [] = some []
rebase_ops_loop zero segs c (addr ∷ locs) = none
rebase_ops_loop (suc fuel) segs c (addr ∷ locs) = do
  (move, seg_start, seg_end) ← move_to segs c addr
  let n = run_length seg_end (addr + 8) locs
  ops ←
      rebase_ops_loop fuel segs
        (record { seg_start = seg_start; seg_end = seg_end; cur_addr = addr + suc n * 8 })
        (drop n locs)
  some (move ++ rebase (suc n) ∷ ops)

unfoldable pub rebase_ops : List Segment → List ℕ → Option (List Op)
unfolding rebase_ops_loop
rebase_ops segs locs =
    rebase_ops_loop (length locs) segs (record { seg_start = 0; seg_end = 0; cur_addr = 0 }) locs

-- One opcode of the `match` of `construct`; `seg as u8` keeps the low byte.
unfoldable pub encode_op : List ℕ → Op → List ℕ
encode_op buf (seg_offset seg off) = encode_uleb (buf ++ bit_or 0x20 (seg % 256) ∷ []) off
encode_op buf (add_addr delta) =
    if leb delta (15 * 8) && delta % 8 == 0
    then buf ++ bit_or 0x40 (delta / 8 % 256) ∷ []
    else encode_uleb (buf ++ 0x30 ∷ []) delta
encode_op buf (rebase count) =
    if leb count 15
    then buf ++ bit_or 0x50 (count % 256) ∷ []
    else encode_uleb (buf ++ 0x60 ∷ []) count

unfoldable pub encode_ops : List ℕ → List Op → List ℕ
unfolding encode_op
encode_ops buf [] = buf
encode_ops buf (op ∷ ops) = encode_ops (encode_op buf op) ops

-- `construct` on the locations that `rebase_locations` gathers; `never_slid` is `is_never_slid`.
unfoldable pub construct : Bool → List Segment → List ℕ → Option (List ℕ)
unfolding encode_ops rebase_ops pad_to
construct never_slid segs locs = if never_slid then some [] else elim locs [
  | [] ↦ some []
  | loc ∷ rest ↦ do
    ops ← rebase_ops segs (sort (loc ∷ rest))
    some (pad_to 8 (encode_ops (bit_or 0x10 1 ∷ []) ops ++ 0 ∷ []))
]
