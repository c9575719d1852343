-- ===== src/Util/Leb/Encoding.antt =====
-- What the unsigned LEB128 writers of macho/util/mod.rs write, in plain arithmetic.
use mathlib.Core.WellFounded.{Acc}
use mold_macho.Prelude.{
  ℕ, zero, suc, ◌+◌, ◌/◌, ◌%◌, ◌^◌, ◌≤◌, ◌<◌, ◌≡◌, bit_and, bit_or, ltb, leb, Bool-cases, inl, inr,
  ltb→lt, ltb→ge, if◌then◌else◌, List, [], ◌∷◌, ◌++◌, append_assoc, length, drop, set, Option, none,
  some, arith, ap, ◌∙◌, refl, length-append, append-nil,
}
use mold_macho.Prelude.Bits.{bit_and_low, bit_or_disjoint}
use mold_macho.Prelude.Order.{lt_wf}
use mold_macho.Util.Leb.{
  encode_uleb_loop, encode_uleb, uleb_size_loop, uleb_size, write_uleb_loop, write_uleb,
}

-- The seven-bit groups of a value below 128 ^ (k + 1), the lowest first, each but the last marked.
unfoldable pub groups : ℕ → ℕ → List ℕ
groups zero value = value ∷ []
groups (suc k) value =
    let rest = groups k (value / 128) in
    if ltb value 128 then value ∷ [] else (value % 128 + 128) ∷ rest

pub low_group : (value : ℕ) → bit_and value 0x7f ≡ value % 128
low_group value = bit_and_low 7 value

pub marked_group : (value : ℕ) → bit_or (bit_and value 0x7f) 0x80 ≡ value % 128 + 128
marked_group value = rw low_group (bit_or_disjoint 7 (value % 128) 1 (omega arith))

encode_uleb_loop-groups :
    (k : ℕ) (out : List ℕ) (value : ℕ) (w : Acc ◌<◌ value)
    → value < 128 ^ suc k
    → encode_uleb_loop out value w ≡ out ++ groups k value
unfolding encode_uleb_loop groups
encode_uleb_loop-groups zero out value (Acc.intro _ smaller) h = ground (arith, low_group value)
encode_uleb_loop-groups (suc k) out value (Acc.intro _ smaller) h =
    let marked : List ℕ = (value % 128 + 128) ∷ [] in
    grind (
      arith,
      low_group value,
      marked_group value,
      λ (w : Acc ◌<◌ (value / 128)).
          encode_uleb_loop-groups k (out ++ marked) (value / 128) w (omega arith),
      append_assoc out marked (groups k (value / 128)),
    )

-- `encode_uleb` appends the groups.
pub encode_uleb-groups :
    (k : ℕ) (out : List ℕ) (value : ℕ)
    → value < 128 ^ suc k
    → encode_uleb out value ≡ out ++ groups k value
unfolding encode_uleb
encode_uleb-groups k out value h = encode_uleb_loop-groups k out value (lt_wf.apply value) h

uleb_size_loop-groups :
    (k len value : ℕ) (w : Acc ◌<◌ value)
    → value < 128 ^ suc k
    → uleb_size_loop len value w + 1 ≡ len + length (groups k value)
unfolding uleb_size_loop groups
uleb_size_loop-groups zero len value (Acc.intro _ smaller) h = ground arith
uleb_size_loop-groups (suc k) len value (Acc.intro _ smaller) h = grind (
  arith,
  λ (w : Acc ◌<◌ (value / 128)). uleb_size_loop-groups k (len + 1) (value / 128) w (omega arith),
)

-- `uleb_size` is the number of groups.
pub uleb_size-groups :
    (k value : ℕ) → value < 128 ^ suc k → uleb_size value ≡ length (groups k value)
unfolding uleb_size
uleb_size-groups k value h = omega (arith, uleb_size_loop-groups k 1 value (lt_wf.apply value) h)

set-append :
    (pre : List ℕ) (x b : ℕ) (suf : List ℕ)
    → set (pre ++ x ∷ suf) (length pre) b ≡ (pre ++ b ∷ []) ++ suf
set-append [] x b suf = refl
set-append (p ∷ pre) x b suf = ap (λ l. p ∷ l) (set-append pre x b suf)

-- What `write_uleb` does to a buffer whose bytes from the write position on are `suf`.
abbrev pub written : List ℕ → List ℕ → List ℕ → Option (List ℕ × ℕ)
written pre code suf =
    if leb (length code) (length suf)
    then some (pre ++ (code ++ drop (length code) suf), length pre + length code)
    else none

module _ (f : ℕ) (pre : List ℕ) (value : ℕ) where
  full_write : write_uleb_loop (suc f) (pre ++ []) (length pre) value ≡ none
  unfolding write_uleb_loop
  full_write = rw append-nil (ground arith)

  last_write :
      (x : ℕ) (suf : List ℕ)
      → value < 128
      → write_uleb_loop (suc f) (pre ++ x ∷ suf) (length pre) value
        ≡ some ((pre ++ value ∷ []) ++ suf, length pre + 1)
  unfolding write_uleb_loop
  last_write x suf h =
      ground (arith, low_group value, set-append pre x value suf, length-append pre (x ∷ suf))

  next_write :
      (x : ℕ) (suf : List ℕ)
      → 128 ≤ value
      → write_uleb_loop (suc f) (pre ++ x ∷ suf) (length pre) value
        ≡ write_uleb_loop f
            ((pre ++ (value % 128 + 128) ∷ []) ++ suf)
            (length pre + 1)
            (value / 128)
  unfolding write_uleb_loop
  next_write x suf h = ground (
    arith,
    marked_group value,
    set-append pre x (value % 128 + 128) suf,
    length-append pre (x ∷ suf),
  )

-- The write of one byte moves it from the part ahead to the part behind.
written-step :
    (pre code suf : List ℕ) (b x : ℕ)
    → written (pre ++ b ∷ []) code suf ≡ written pre (b ∷ code) (x ∷ suf)
written-step pre code suf b x =
    ground (
      arith,
      append_assoc pre (b ∷ []) (code ++ drop (length code) suf),
      length-append pre (b ∷ []),
    )

written_one :
    (pre suf : List ℕ) (b x : ℕ)
    → some ((pre ++ b ∷ []) ++ suf, length pre + 1) ≡ written pre (b ∷ []) (x ∷ suf)
written_one pre suf b x = ground (arith, append_assoc pre (b ∷ []) suf)

write_uleb_loop-groups :
    (k : ℕ) (pre suf : List ℕ) (value : ℕ)
    → value < 128 ^ suc k
    → write_uleb_loop (suc k) (pre ++ suf) (length pre) value ≡ written pre (groups k value) suf
unfolding groups
write_uleb_loop-groups zero pre [] value h = full_write zero pre value
write_uleb_loop-groups zero pre (x ∷ suf) value h =
    last_write zero pre value x suf (omega arith) ∙ written_one pre suf value x
write_uleb_loop-groups (suc k) pre [] value h = full_write (suc k) pre value ∙ ground arith
write_uleb_loop-groups (suc k) pre (x ∷ suf) value h = elim (Bool-cases (ltb value 128)) [
  | inl small ↦
      last_write (suc k) pre value x suf (ltb→lt _ _ small) ∙ rw small (written_one pre suf value x)
  | inr large ↦
      next_write (suc k) pre value x suf (ltb→ge _ _ large)
      ∙ rw (large, ← length-append pre ((value % 128 + 128) ∷ []))
          (write_uleb_loop-groups k (pre ++ (value % 128 + 128) ∷ []) suf (value / 128)
              (omega arith)
            ∙ written-step pre (groups k (value / 128)) suf (value % 128 + 128) x)
]

-- `write_uleb` overwrites the start of the buffer by the groups, and panics if they do not fit.
pub write_uleb-groups :
    (buf : List ℕ) (value : ℕ)
    → value < 128 ^ 10
    → write_uleb buf value ≡ written [] (groups 9 value) buf
unfolding write_uleb
write_uleb-groups buf value h = write_uleb_loop-groups 9 [] buf value h
