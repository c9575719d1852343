-- ===== src/Chunks/Rebase/Stream.antt =====
-- The encoded stream is read back as the opcodes that were encoded, so the loader slides exactly
-- the locations gathered.
use mold_macho.Chunks.Rebase.{Op, rebase, encode_op, seg_offset, add_addr, encode_ops}
use mold_macho.Chunks.Rebase.Machine.{read_ops, next_op}
use mold_macho.Prelude.{
  List, ◌%◌, ◌<◌, ℕ, ◌++◌, ◌≡◌, [], ◌+◌, ◌/◌, ◌∷◌, ◌*◌, if◌then◌else◌, some, leb, arith, ◌==◌, suc,
  ◌&&◌, bit_or, append_assoc, Bool-cases, refl, ◌∙◌, inr, inl, ◌≢◌, leb→le, sym, length, zero,
  length-append, true, append-nil, ap, ◌≤◌,
}
use mold_macho.Prelude.Bits.{bit_or_low}
use mold_macho.Prelude.Bytes.{All}
use mold_macho.Prelude.Fallible.{◌>>=◌}
use mold_macho.Prelude.Words.{IsU64}
use mold_macho.Util.Leb.{encode_uleb}
use mold_macho.Util.Leb.Encoding.{encode_uleb-groups}
use mold_macho.Util.Leb.Unsigned.{read_uleb-encode_uleb}

-- The operands fit their fields.
abbrev pub IsOp : Op → Type 0
IsOp (seg_offset seg off) = (seg < 16) × IsU64 off
IsOp (add_addr delta) = IsU64 delta
IsOp (rebase count) = IsU64 count

pub encode_uleb-append :
    (buf : List ℕ) (v : ℕ) → IsU64 v → encode_uleb buf v ≡ buf ++ encode_uleb [] v
encode_uleb-append buf v h =
    rw (encode_uleb-groups 9 buf v (omega arith), encode_uleb-groups 9 [] v (omega arith))

-- The code of one opcode.
code : Op → List ℕ
code (seg_offset seg off) = (0x20 + seg) ∷ encode_uleb [] off
code (add_addr delta) =
    if leb delta (15 * 8) && delta % 8 == 0
    then (0x40 + delta / 8) ∷ []
    else 0x30 ∷ encode_uleb [] delta
code (rebase count) = if leb count 15 then (0x50 + count) ∷ [] else 0x60 ∷ encode_uleb [] count

pub opcode_imm : (opcode imm : ℕ) → imm < 16 → bit_or (opcode * 16) (imm % 256) ≡ opcode * 16 + imm
opcode_imm opcode imm h = let e : imm % 256 ≡ imm = omega arith in rw e (bit_or_low 4 opcode imm h)

-- An opcode byte and its operand, appended to what is there.
pub with_operand :
    (buf : List ℕ) (byte v : ℕ)
    → IsU64 v
    → encode_uleb (buf ++ byte ∷ []) v ≡ buf ++ byte ∷ encode_uleb [] v
with_operand buf byte v h =
    encode_uleb-append (buf ++ byte ∷ []) v h ∙ append_assoc buf (byte ∷ []) (encode_uleb [] v)

-- A delta that the scaled opcode holds.
scaled :
    (delta : ℕ)
    → (leb delta (15 * 8) && delta % 8 == 0) ≡ true
    → (delta / 8 < 16) × (delta / 8 * 8 ≡ delta)
scaled delta h = ground arith

length-code : (op : Op) → 1 ≤ length (code op)
unfolding code
length-code (seg_offset seg off) = omega arith
length-code (add_addr delta) = ground arith
length-code (rebase count) = ground arith

encode_op-code : (buf : List ℕ) (op : Op) → IsOp op → encode_op buf op ≡ buf ++ code op
unfolding encode_op code
encode_op-code buf (seg_offset seg off) (hs, ho) =
    rw (opcode_imm 2 seg hs) (with_operand buf (0x20 + seg) off ho)
encode_op-code buf (add_addr delta) h = elim (Bool-cases (leb delta (15 * 8) && delta % 8 == 0)) [
  | inl short ↦ rw (short, opcode_imm 4 (delta / 8) (scaled delta short).0) refl
  | inr long ↦ rw long (with_operand buf 0x30 delta h)
]
encode_op-code buf (rebase count) h = elim (Bool-cases (leb count 15)) [
  | inl short ↦ rw (short, opcode_imm 5 count (omega (arith, leb→le count 15 short))) refl
  | inr long ↦ rw long (with_operand buf 0x60 count h)
]

-- A byte that is no terminator is an opcode.
read_op :
    (f byte : ℕ) (tail rest : List ℕ) (op : Op)
    → byte ≢ 0
    → next_op byte tail ≡ some (op ∷ [], rest)
    → read_ops (suc f) (byte ∷ tail) ≡ (read_ops f rest >>= (λ ops. some (op ∷ ops)))
unfolding read_ops
read_op f byte tail rest op hb h = ground arith

module _ (f : ℕ) (rest : List ℕ) where
  read_seg_offset :
      (seg off : ℕ)
      → seg < 16
      → IsU64 off
      → read_ops (suc f) ((0x20 + seg) ∷ (encode_uleb [] off ++ rest))
        ≡ (read_ops f rest >>= (λ ops. some (seg_offset seg off ∷ ops)))
  unfolding next_op
  read_seg_offset seg off hs ho =
      read_op f (0x20 + seg) (encode_uleb [] off ++ rest) rest (seg_offset seg off) (omega arith)
        (ground (arith, read_uleb-encode_uleb off rest ho))

  read_add_addr :
      (delta : ℕ)
      → IsU64 delta
      → read_ops (suc f) (0x30 ∷ (encode_uleb [] delta ++ rest))
        ≡ (read_ops f rest >>= (λ ops. some (add_addr delta ∷ ops)))
  unfolding next_op
  read_add_addr delta h =
      read_op f 0x30 (encode_uleb [] delta ++ rest) rest (add_addr delta) (omega arith)
        (ground (arith, read_uleb-encode_uleb delta rest h))

  read_scaled :
      (delta : ℕ)
      → (leb delta (15 * 8) && delta % 8 == 0) ≡ true
      → read_ops (suc f) ((0x40 + delta / 8) ∷ rest)
        ≡ (read_ops f rest >>= (λ ops. some (add_addr delta ∷ ops)))
  unfolding next_op
  read_scaled delta h =
      read_op f (0x40 + delta / 8) rest rest (add_addr delta) (omega arith)
        (ground (arith, scaled delta h))

  read_rebase :
      (count : ℕ)
      → IsU64 count
      → read_ops (suc f) (0x60 ∷ (encode_uleb [] count ++ rest))
        ≡ (read_ops f rest >>= (λ ops. some (rebase count ∷ ops)))
  unfolding next_op
  read_rebase count h =
      read_op f 0x60 (encode_uleb [] count ++ rest) rest (rebase count) (omega arith)
        (ground (arith, read_uleb-encode_uleb count rest h))

  read_rebase_imm :
      (count : ℕ)
      → leb count 15 ≡ true
      → read_ops (suc f) ((0x50 + count) ∷ rest)
        ≡ (read_ops f rest >>= (λ ops. some (rebase count ∷ ops)))
  unfolding next_op
  read_rebase_imm count h =
      read_op f (0x50 + count) rest rest (rebase count) (omega arith)
        (ground (arith, leb→le count 15 h))

read_ops-code :
    (f : ℕ) (op : Op) (rest : List ℕ)
    → IsOp op
    → read_ops (suc f) (code op ++ rest) ≡ (read_ops f rest >>= (λ ops. some (op ∷ ops)))
unfolding code
read_ops-code f (seg_offset seg off) rest (hs, ho) = read_seg_offset f rest seg off hs ho
read_ops-code f (add_addr delta) rest h = elim (Bool-cases (leb delta (15 * 8) && delta % 8 == 0)) [
  | inl short ↦ rw short (read_scaled f rest delta short)
  | inr long ↦ rw long (read_add_addr f rest delta h)
]
read_ops-code f (rebase count) rest h = elim (Bool-cases (leb count 15)) [
  | inl short ↦ rw short (read_rebase_imm f rest count short)
  | inr long ↦ rw long (read_rebase f rest count h)
]

pub codes_of : List Op → List ℕ
codes_of [] = []
codes_of (op ∷ ops) = code op ++ codes_of ops

pub encode_ops-codes :
    (buf : List ℕ) (ops : List Op) → All IsOp ops → encode_ops buf ops ≡ buf ++ codes_of ops
unfolding encode_ops codes_of
encode_ops-codes buf [] h = sym (append-nil buf)
encode_ops-codes buf (op ∷ ops) (h, hs) =
    encode_ops-codes (encode_op buf op) ops hs
    ∙ rw (encode_op-code buf op h) (append_assoc buf (code op) (codes_of ops))

-- The opcodes, then the end, then anything.
pub read_ops-codes :
    (ops : List Op) (f : ℕ) (rest : List ℕ)
    → All IsOp ops
    → length ops < f
    → read_ops f (codes_of ops ++ 0 ∷ rest) ≡ some ops
unfolding codes_of
read_ops-codes ops zero rest h hf = absurd (omega arith)
read_ops-codes [] (suc f) rest h hf = unfold read_ops in refl
read_ops-codes (op ∷ ops) (suc f) rest (h, hs) hf =
    ap (read_ops (suc f)) (append_assoc (code op) (codes_of ops) (0 ∷ rest))
    ∙ read_ops-code f op (codes_of ops ++ 0 ∷ rest) h
    ∙ rw (read_ops-codes ops f rest hs (omega arith)) refl

pub length-codes_of : (ops : List Op) → length ops ≤ length (codes_of ops)
unfolding codes_of
length-codes_of [] = omega arith
length-codes_of (op ∷ ops) =
    omega (arith, length-append (code op) (codes_of ops), length-codes_of ops, length-code op)
