-- ===== src/Chunks/Bind.antt =====
-- macho/chunks/bind_info.rs: the bind opcode stream. `name`, `ordinal` and `flags` give what the
-- stream says of a symbol, and a list of binds is what `construct` has gathered.
pub mod Machine
pub mod Moves
pub mod Ops
pub mod Stream
pub mod Key
pub mod Construct
use mold_macho.Chunks.Segments.{Segment, segment_and_offset}
use mold_macho.Prelude.{
  bit_and, [], List, ◌&&◌, ltb, ℕ, ◌-◌, if◌then◌else◌, ◌∷◌, ◌+◌, Option, ◌^◌, zero, some, none,
  ◌==◌, ◌%◌, ◌++◌, suc, false, bit_or, Bool, true, Ordering, compare,
}
use mold_macho.Prelude.Bytes.{pad_to}
use mold_macho.Prelude.Fallible.{◌>>=◌}
use mold_macho.Prelude.Int.{pos, as_u64, negsuc, ℤ}
use mold_macho.Prelude.SortBy.{sort_by}
use mold_macho.Util.Leb.{encode_uleb, encode_sleb}
use mold_macho.Util.Names.{then_with, name_cmp}
use mold_macho.Util.SipHash.{new}

pub data Op : Type 0 where
  dylib : ℤ → Op
  symbol : List ℕ → ℕ → Op
  pointer_type : Op
  seg_offset : ℕ → ℕ → Op
  add_addr : ℕ → Op
  addend : ℤ → Op
  bind : Op

-- A slot's address, its symbol and its addend.
pub record Bind : Type 0 where
  pub at : ℕ
  pub sym : ℕ
  pub plus : ℤ

-- What the loop of `bind_ops` keeps.
pub record BindState : Type 0 where
  pub cur_ordinal : Option ℤ
  pub cur_symbol : Option (ℕ × ℕ)
  pub cur_seg : Option ℕ
  pub cur_addr : ℕ
  pub cur_addend : ℤ

unfoldable pub int_eq : ℤ → ℤ → Bool
int_eq (pos m) (pos n) = m == n
int_eq (pos m) (negsuc n) = false
int_eq (negsuc m) (pos n) = false
int_eq (negsuc m) (negsuc n) = m == n

-- The library, if the stream names one and it is not the current one, and the one after.
unfoldable pub dylib_ops : Option ℤ → Option ℤ → List Op × Option ℤ
unfolding int_eq
dylib_ops none cur = ([], cur)
dylib_ops (some ord) none = (dylib ord ∷ [], some ord)
dylib_ops (some ord) (some cur) =
    if int_eq ord cur then ([], some cur) else (dylib ord ∷ [], some ord)

-- The symbol's name and flags, unless they are current. The first symbol is followed by the type.
unfoldable pub symbol_ops : (ℕ → List ℕ) → ℕ → ℕ → Option (ℕ × ℕ) → List Op
symbol_ops name id flags none = symbol (name id) flags ∷ pointer_type ∷ []
symbol_ops name id flags (some (cur_id, cur_flags)) =
    if cur_id == id && cur_flags == flags then [] else symbol (name id) flags ∷ []

-- The move to a slot's address, and the segment after it.
unfoldable pub move_in : ℕ → ℕ → ℕ → Option ℕ → ℕ → List Op × Option ℕ
move_in seg off addr none cur_addr = (seg_offset seg off ∷ [], some seg)
move_in seg off addr (some cur) cur_addr =
    if cur == seg
    then (add_addr ((addr + 2 ^ 64 - cur_addr) % 2 ^ 64) ∷ [], some cur)
    else (seg_offset seg off ∷ [], some seg)

unfoldable pub enter : List Segment → ℕ → Option ℕ → ℕ → Option (List Op × Option ℕ)
unfolding move_in
enter segs addr cur_seg cur_addr = do
  (seg, off) ← segment_and_offset segs addr
  some (move_in seg off addr cur_seg cur_addr)

unfoldable pub addr_ops : List Segment → ℕ → Option ℕ → ℕ → Option (List Op × Option ℕ)
unfolding enter
addr_ops segs addr none cur_addr = enter segs addr none cur_addr
addr_ops segs addr (some seg) cur_addr =
    if addr == cur_addr then some ([], some seg) else enter segs addr (some seg) cur_addr

unfoldable pub addend_ops : ℤ → ℤ → List Op
unfolding int_eq
addend_ops new cur = if int_eq new cur then [] else addend new ∷ []

module _ (segs : List Segment) (name : ℕ → List ℕ) (ordinal : ℕ → Option ℤ) (flags : ℕ → ℕ) where
  -- A round of the loop of `bind_ops`.
  unfoldable pub bind_one : BindState → Bind → Option (List Op × BindState)
  unfolding dylib_ops symbol_ops addr_ops addend_ops
  bind_one st b = do
    (addr, seg) ← addr_ops segs b.at st.cur_seg st.cur_addr
    some (
      (dylib_ops (ordinal b.sym) st.cur_ordinal).0
          ++ (symbol_ops name b.sym (flags b.sym) st.cur_symbol
              ++ (addr ++ (addend_ops b.plus st.cur_addend ++ bind ∷ []))),
      record {
        cur_ordinal = (dylib_ops (ordinal b.sym) st.cur_ordinal).1;
        cur_symbol = some (b.sym, flags b.sym);
        cur_seg = seg;
        cur_addr = b.at + 8;
        cur_addend = b.plus;
      },
    )

  unfoldable pub bind_ops_loop : BindState → List Bind → Option (List Op)
  unfolding bind_one
  bind_ops_loop st [] = some []
  bind_ops_loop st (b ∷ binds) = do
    (ops, st') ← bind_one st b
    rest ← bind_ops_loop st' binds
    some (ops ++ rest)

  unfoldable pub bind_ops : List Bind → Option (List Op)
  unfolding bind_ops_loop
  bind_ops binds =
      bind_ops_loop
        (record {
          cur_ordinal = none;
          cur_symbol = none;
          cur_seg = none;
          cur_addr = 0;
          cur_addend = pos 0;
        })
        binds

-- Appends a bind opcode. `(ord & 0xf) as u8` is taken from the two's complement pattern.
unfoldable pub encode_op : List ℕ → Op → Option (List ℕ)
encode_op buf (dylib (pos zero)) = some (buf ++ bit_or 0x30 (bit_and 0 0xf) ∷ [])
encode_op buf (dylib (negsuc n)) = some (buf ++ bit_or 0x30 (bit_and (as_u64 (negsuc n)) 0xf) ∷ [])
encode_op buf (dylib (pos (suc n))) =
    if ltb (suc n) 16
    then some (buf ++ bit_or 0x10 (suc n) ∷ [])
    else some (encode_uleb (buf ++ 0x20 ∷ []) (suc n))
encode_op buf (symbol name flags) = some (((buf ++ bit_or 0x40 flags ∷ []) ++ name) ++ 0 ∷ [])
encode_op buf pointer_type = some (buf ++ bit_or 0x50 1 ∷ [])
encode_op buf (seg_offset seg off) = some (encode_uleb (buf ++ bit_or 0x70 (seg % 256) ∷ []) off)
encode_op buf (add_addr delta) = some (encode_uleb (buf ++ 0x80 ∷ []) delta)
encode_op buf (addend plus) = encode_sleb (buf ++ 0x60 ∷ []) plus
encode_op buf bind = some (buf ++ 0x90 ∷ [])

unfoldable pub encode_ops : List ℕ → List Op → Option (List ℕ)
unfolding encode_op
encode_ops buf [] = some buf
encode_ops buf (op ∷ ops) = encode_op buf op >>= (λ out. encode_ops out ops)

unfoldable pub encode : List Op → Option (List ℕ)
unfolding encode_ops pad_to
encode ops = do buf ← encode_ops [] ops; some (pad_to 8 (buf ++ 0 ∷ []))

unfoldable pub int_cmp : ℤ → ℤ → Ordering
int_cmp (pos m) (pos n) = compare m n
int_cmp (pos m) (negsuc n) = Ordering.gt
int_cmp (negsuc m) (pos n) = Ordering.lt
int_cmp (negsuc m) (negsuc n) = compare n m

-- The order of the key (ordinal, name, addend, address).
abbrev pub no_later : Ordering → Bool
no_later Ordering.lt = true
no_later Ordering.eq = true
no_later Ordering.gt = false

unfoldable pub bind_le : (ℕ → List ℕ) → (ℕ → ℤ) → Bind → Bind → Bool
unfolding int_cmp name_cmp
bind_le name ordinal a b = no_later (
    then_with (int_cmp (ordinal a.sym) (ordinal b.sym)) (
      then_with (name_cmp (name a.sym) (name b.sym))
        (then_with (int_cmp a.plus b.plus) (compare a.at b.at))))

-- The flags of a symbol: whether it is a weak reference.
abbrev pub import_flags : (ℕ → Bool) → ℕ → ℕ
import_flags is_weak_ref id = if is_weak_ref id then 1 else 0

abbrev pub in_library : (ℕ → ℤ) → ℕ → Option ℤ
in_library ordinal id = some (ordinal id)

-- `construct`, on the binds gathered; `is_weak_ref` says which symbols are weak references.
unfoldable pub construct :
    List Segment → (ℕ → List ℕ) → (ℕ → ℤ) → (ℕ → Bool) → List Bind → Option (List ℕ)
unfolding bind_le bind_ops encode
construct segs name ordinal is_weak_ref [] = some []
construct segs name ordinal is_weak_ref (b ∷ binds) = do
  ops ←
      bind_ops segs name (in_library ordinal) (import_flags is_weak_ref)
        (sort_by (bind_le name ordinal) (b ∷ binds))
  encode ops
