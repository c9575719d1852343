-- ===== src/Chunks/Bind/Stream.antt =====
-- The encoded bind stream is read back as the opcodes that were encoded.
use mold_macho.Chunks.Bind.{
  Op, dylib, symbol, pointer_type, seg_offset, add_addr, addend, bind, encode_op, encode_ops,
  encode,
}
use mold_macho.Chunks.Bind.Machine.{
  next_op, read_ops, read_name, special, bound_stream, Dyld, bound,
}
use mold_macho.Chunks.Rebase.Stream.{with_operand, opcode_imm}
use mold_macho.Chunks.Segments.{Segment}
use mold_macho.Prelude.{
  ◌++◌, ◌≤◌, ◌+◌, ◌-◌, inl, refl, length, ◌^◌, ap, suc, [], ltb→lt, some, ltb, Bool-cases, ◌∷◌,
  if◌then◌else◌, bit_and, zero, ◌<◌, List, ◌≡◌, inr, append_assoc, ℕ, ◌∙◌, arith, append-nil,
  length-append, ◌≢◌, sym, ◌==◌, false, ◌%◌, replicate,
}
use mold_macho.Prelude.Bits.{bit_and_low, bit_or_low}
use mold_macho.Prelude.Bytes.{All, pad_to}
use mold_macho.Prelude.Fallible.{◌>>=◌}
use mold_macho.Prelude.Int.{negsuc, ℤ, pos}
use mold_macho.Prelude.Words.{IsU64}
use mold_macho.Thunks.Span.{is_code}
use mold_macho.Util.Leb.{encode_uleb}
use mold_macho.Util.Leb.Signed.{encode_sleb-groups, IsI64, sleb_groups, sleb-groups}
use mold_macho.Util.Leb.Unsigned.{read_uleb-encode_uleb}

-- A library that the opcodes can name: a 32-bit ordinal, or a special one above -16.
abbrev pub IsOrdinal : ℤ → Type 0
IsOrdinal (pos n) = n < 2 ^ 31
IsOrdinal (negsuc n) = n < 15

-- A name has no zero byte.
abbrev pub IsName : List ℕ → Type 0
IsName name = All (λ c. 0 < c) name

-- The operands fit their fields.
abbrev pub IsOp : Op → Type 0
IsOp (dylib ord) = IsOrdinal ord
IsOp (symbol name flags) = IsName name × (flags < 16)
IsOp pointer_type = Unit
IsOp (seg_offset seg off) = (seg < 16) × IsU64 off
IsOp (add_addr delta) = IsU64 delta
IsOp (addend plus) = IsI64 plus
IsOp bind = Unit

-- The code of one opcode.
code : Op → List ℕ
code (dylib (pos zero)) = 0x30 ∷ []
code (dylib (negsuc n)) = (0x30 + (15 - n)) ∷ []
code (dylib (pos (suc n))) =
    if ltb (suc n) 16 then (0x10 + suc n) ∷ [] else 0x20 ∷ encode_uleb [] (suc n)
code (symbol name flags) = (0x40 + flags) ∷ (name ++ 0 ∷ [])
code pointer_type = 0x51 ∷ []
code (seg_offset seg off) = (0x70 + seg) ∷ encode_uleb [] off
code (add_addr delta) = 0x80 ∷ encode_uleb [] delta
code (addend plus) = 0x60 ∷ sleb_groups plus
code bind = 0x90 ∷ []

special_low : (n : ℕ) → n < 15 → bit_and (2 ^ 64 - 1 - n) 0xf ≡ 15 - n
special_low n h = bit_and_low 4 (2 ^ 64 - 1 - n) ∙ omega arith

encode_op-code : (buf : List ℕ) (op : Op) → IsOp op → encode_op buf op ≡ some (buf ++ code op)
unfolding encode_op code
encode_op-code buf (dylib (pos zero)) h = refl
encode_op-code buf (dylib (negsuc n)) h =
    rw (special_low n h, bit_or_low 4 3 (15 - n) (omega arith)) refl
encode_op-code buf (dylib (pos (suc n))) h = elim (Bool-cases (ltb (suc n) 16)) [
  | inl short ↦ rw (short, bit_or_low 4 1 (suc n) (ltb→lt (suc n) 16 short)) refl
  | inr long ↦ rw long (ap some (with_operand buf 0x20 (suc n) (omega arith)))
]
encode_op-code buf (symbol name flags) (hn, hf) = rw (bit_or_low 4 4 flags hf) (
    ap some (
      append_assoc (buf ++ (0x40 + flags) ∷ []) name (0 ∷ [])
      ∙ append_assoc buf ((0x40 + flags) ∷ []) (name ++ 0 ∷ [])))
encode_op-code buf pointer_type h = refl
encode_op-code buf (seg_offset seg off) (hs, ho) =
    rw (opcode_imm 7 seg hs) (ap some (with_operand buf (0x70 + seg) off ho))
encode_op-code buf (add_addr delta) h = ap some (with_operand buf 0x80 delta h)
encode_op-code buf (addend plus) h =
    encode_sleb-groups (buf ++ 0x60 ∷ []) plus h
    ∙ ap some (append_assoc buf (0x60 ∷ []) (sleb_groups plus))
encode_op-code buf bind h = refl

length-code : (op : Op) → 1 ≤ length (code op)
unfolding code
length-code (dylib (pos zero)) = omega arith
length-code (dylib (negsuc n)) = omega arith
length-code (dylib (pos (suc n))) = ground arith
length-code (symbol name flags) = omega arith
length-code pointer_type = omega arith
length-code (seg_offset seg off) = omega arith
length-code (add_addr delta) = omega arith
length-code (addend plus) = omega arith
length-code bind = omega arith

read_name-append :
    (name rest : List ℕ) → IsName name → read_name (name ++ 0 ∷ rest) ≡ some (name, rest)
unfolding read_name
read_name-append [] rest h = refl
read_name-append (c ∷ name) rest (hc, hs) =
    let e : (c == 0) ≡ false = ground arith in rw (e, read_name-append name rest hs) refl

-- The code of an opcode is a byte, not the end's, and operands, from which the opcode is read.
Reads : Op → List ℕ → Type 0
Reads op rest =
    (byte : ℕ) × (tail : List ℕ) × (code op ++ rest ≡ byte ∷ tail)
    × (byte ≢ 0)
    × (next_op byte tail ≡ some (op, rest))

special-read : (n : ℕ) → n < 15 → special (15 - n) ≡ negsuc n
unfolding special
special-read n h = let e : 15 - n ≡ suc (14 - n) = omega arith in rw e (ap negsuc (omega arith))

read_dylib : (ord : ℤ) (rest : List ℕ) → IsOrdinal ord → Reads (dylib ord) rest
unfolding Reads code next_op
read_dylib (pos zero) rest h = (0x30, rest, refl, omega arith, unfold special in refl)
read_dylib (negsuc n) rest h =
    (0x30 + (15 - n), rest, refl, omega arith, ground (arith, special-read n h))
read_dylib (pos (suc n)) rest h = elim (Bool-cases (ltb (suc n) 16)) [
  | inl short ↦
      rw short (0x10 + suc n, rest, refl, omega arith, ground (arith, ltb→lt (suc n) 16 short))
  | inr long ↦ rw long (
    0x20,
    encode_uleb [] (suc n) ++ rest,
    refl,
    omega arith,
    ground (arith, read_uleb-encode_uleb (suc n) rest (omega arith)),
  )
]

code-Reads : (op : Op) (rest : List ℕ) → IsOp op → Reads op rest
unfolding Reads code next_op
code-Reads (dylib ord) rest h = unfold Reads code next_op in read_dylib ord rest h
code-Reads (symbol name flags) rest (hn, hf) = (
  0x40 + flags,
  (name ++ 0 ∷ []) ++ rest,
  refl,
  omega arith,
  rw (append_assoc name (0 ∷ []) rest) (ground (arith, read_name-append name rest hn)),
)
code-Reads pointer_type rest h = (0x51, rest, refl, omega arith, refl)
code-Reads (seg_offset seg off) rest (hs, ho) = (
  0x70 + seg,
  encode_uleb [] off ++ rest,
  refl,
  omega arith,
  ground (arith, read_uleb-encode_uleb off rest ho),
)
code-Reads (add_addr delta) rest h = (
  0x80,
  encode_uleb [] delta ++ rest,
  refl,
  omega arith,
  rw (read_uleb-encode_uleb delta rest h) refl,
)
code-Reads (addend plus) rest h =
    (0x60, sleb_groups plus ++ rest, refl, omega arith, rw (sleb-groups plus rest h) refl)
code-Reads bind rest h = (0x90, rest, refl, omega arith, refl)

read_op :
    (f byte : ℕ) (tail rest : List ℕ) (op : Op)
    → byte ≢ 0
    → next_op byte tail ≡ some (op, rest)
    → read_ops (suc f) (byte ∷ tail) ≡ (read_ops f rest >>= (λ ops. some (op ∷ ops)))
unfolding read_ops
read_op f byte tail rest op hb h = ground arith

read_ops-code :
    (f : ℕ) (op : Op) (rest : List ℕ)
    → IsOp op
    → read_ops (suc f) (code op ++ rest) ≡ (read_ops f rest >>= (λ ops. some (op ∷ ops)))
unfolding Reads
read_ops-code f op rest h =
    let (byte, tail, is_code, no_end, reads) = code-Reads op rest h in
    rw is_code (read_op f byte tail rest op no_end reads)

pub codes_of : List Op → List ℕ
codes_of [] = []
codes_of (op ∷ ops) = code op ++ codes_of ops

pub encode_ops-codes :
    (buf : List ℕ) (ops : List Op) → All IsOp ops → encode_ops buf ops ≡ some (buf ++ codes_of ops)
unfolding encode_ops codes_of
encode_ops-codes buf [] h = ap some (sym (append-nil buf))
encode_ops-codes buf (op ∷ ops) (h, hs) =
    rw (encode_op-code buf op h) (
      encode_ops-codes (buf ++ code op) ops hs
      ∙ ap some (append_assoc buf (code op) (codes_of ops)))

pub length-codes_of : (ops : List Op) → length ops ≤ length (codes_of ops)
unfolding codes_of
length-codes_of [] = omega arith
length-codes_of (op ∷ ops) =
    omega (arith, length-append (code op) (codes_of ops), length-codes_of ops, length-code op)

pub read_ops-codes :
    (ops : List Op) (f : ℕ) (rest : List ℕ)
    → All IsOp ops
    → length ops < f
    → read_ops f (codes_of ops ++ 0 ∷ rest) ≡ some ops
unfolding codes_of
read_ops-codes ops zero rest h hf = absurd (omega arith)
read_ops-codes [] (suc f) rest h hf = unfold read_ops in refl
read_ops-codes (op ∷ ops) (suc f) rest (h, hs) hf =
    let after = read_ops-codes ops f rest hs (omega arith) in
    rw
      (
        append_assoc (code op) (codes_of ops) (0 ∷ rest),
        read_ops-code f op (codes_of ops ++ 0 ∷ rest) h,
        after,
      )
      refl

-- A stream that is not empty.
pub bound_stream-read :
    (segs : List Segment) (m : Dyld) (bytes : List ℕ)
    → 0 < length bytes
    → bound_stream segs m bytes ≡ (read_ops (length bytes) bytes >>= bound segs 0 0 m)
unfolding bound_stream
bound_stream-read segs m [] h = absurd (omega arith)
bound_stream-read segs m (byte ∷ rest) h = refl

-- Every list of opcodes whose operands fit is encoded, and the loader binds by the bytes as by the
-- opcodes.
pub encode-bound :
    (segs : List Segment) (m : Dyld) (ops : List Op)
    → All IsOp ops
    → (bytes : List ℕ) × (encode ops ≡ some bytes)
      × (bound_stream segs m bytes ≡ bound segs 0 0 m ops)
unfolding encode pad_to
encode-bound segs m ops h =
    let len = length (codes_of ops ++ 0 ∷ []) in
    let zeros = replicate ((8 - len % 8) % 8) 0 in
    let whole : (codes_of ops ++ 0 ∷ []) ++ zeros ≡ codes_of ops ++ 0 ∷ zeros =
      append_assoc (codes_of ops) (0 ∷ []) zeros in
    let size : length (codes_of ops ++ 0 ∷ zeros) ≡ length (codes_of ops) + suc (length zeros) =
      length-append (codes_of ops) (0 ∷ zeros) in
    (
      (codes_of ops ++ 0 ∷ []) ++ zeros,
      rw (encode_ops-codes [] ops h) refl,
      rw
          (
            whole,
            bound_stream-read segs m (codes_of ops ++ 0 ∷ zeros) (omega arith),
            read_ops-codes ops (length (codes_of ops ++ 0 ∷ zeros)) zeros h
                (omega (arith, length-codes_of ops)),
          )
          refl,
    )
