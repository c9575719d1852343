-- ===== src/Util/CityHash.antt =====
-- macho/util/cityhash.rs: the hash of a string. `none` is a load or a slice out of the
-- string's bounds, or a length that a subtraction takes below 0.
pub mod Total
use mold_macho.Prelude.{
  ◌/◌, ◌%◌, some, ◌^◌, if◌then◌else◌, length, bit_or, Option, leb, ◌-◌, get_elem?, drop, ◌*◌,
  bit_xor, ltb, List, ℕ, ◌+◌, take, suc, zero, none,
}
use mold_macho.Prelude.Fallible.{◌>>=◌}
use mold_macho.Util.Words.{wrapping_add, read32, read64}

abbrev pub k0 : ℕ
k0 = 0xc3a5c85c97cb3127

abbrev pub k1 : ℕ
k1 = 0xb492b66fbe98f273

abbrev pub k2 : ℕ
k2 = 0x9ae16a3b2f90404f

abbrev pub k3 : ℕ
k3 = 0xc949d7c7509e6557

abbrev pub wrapping_mul : ℕ → ℕ → ℕ
wrapping_mul a b = a * b % 2 ^ 64

abbrev pub wrapping_sub : ℕ → ℕ → ℕ
wrapping_sub a b = (a + 2 ^ 64 - b) % 2 ^ 64

unfoldable pub rotate_right : ℕ → ℕ → ℕ
rotate_right x k = bit_or (x / 2 ^ k) (x * 2 ^ (64 - k) % 2 ^ 64)

unfoldable pub load64 : List ℕ → ℕ → Option ℕ
unfolding read64
load64 s at = read64 (drop at s)

unfoldable pub load32 : List ℕ → ℕ → Option ℕ
unfolding read32
load32 s at = read32 (drop at s)

-- `len - n`, on usize.
unfoldable pub before_end : List ℕ → ℕ → Option ℕ
before_end s n = if leb n (length s) then some (length s - n) else none

-- `load64(s, len - n)` and `load32(s, len - n)`.
unfoldable pub load64_end : List ℕ → ℕ → Option ℕ
unfolding before_end load64
load64_end s n = before_end s n >>= load64 s

unfoldable pub load32_end : List ℕ → ℕ → Option ℕ
unfolding before_end load32
load32_end s n = before_end s n >>= load32 s

unfoldable pub shift_mix : ℕ → ℕ
shift_mix val = bit_xor val (val / 2 ^ 47)

unfoldable pub hash_len_16 : ℕ → ℕ → ℕ
hash_len_16 u v =
    let mul : ℕ = 0x9ddfea08eb382d69 in
    let a = wrapping_mul (bit_xor u v) mul in
    let a = bit_xor a (a / 2 ^ 47) in
    let b = wrapping_mul (bit_xor v a) mul in let b = bit_xor b (b / 2 ^ 47) in wrapping_mul b mul

-- A string of one to three bytes.
unfoldable pub hash_len_1_to_3 : List ℕ → Option ℕ
unfolding before_end shift_mix
hash_len_1_to_3 s = do
  a ← get_elem? s 0
  b ← get_elem? s (length s / 2)
  c ← before_end s 1 >>= get_elem? s
  some (
      let y = (a + b * 2 ^ 8 % 2 ^ 32) % 2 ^ 32 in
      let z = (length s + c * 2 ^ 2 % 2 ^ 32) % 2 ^ 32 in
      wrapping_mul (shift_mix (bit_xor (wrapping_mul y k2) (wrapping_mul z k3))) k2)

unfoldable pub hash_len_4_to_8 : List ℕ → Option ℕ
unfolding load32_end load32 hash_len_16
hash_len_4_to_8 s = do
  a ← load32 s 0
  b ← load32_end s 4
  some (hash_len_16 (wrapping_add (length s) (a * 2 ^ 3 % 2 ^ 32)) b)

unfoldable pub hash_len_9_to_16 : List ℕ → Option ℕ
unfolding load64_end load64 hash_len_16 rotate_right
hash_len_9_to_16 s = do
  a ← load64 s 0
  b ← load64_end s 8
  some (bit_xor (hash_len_16 a (rotate_right (wrapping_add b (length s)) (length s))) b)

unfoldable pub hash_len_0_to_16 : List ℕ → Option ℕ
unfolding hash_len_9_to_16 hash_len_4_to_8 hash_len_1_to_3
hash_len_0_to_16 s =
    if ltb 8 (length s)
    then hash_len_9_to_16 s
    else if leb 4 (length s)
    then hash_len_4_to_8 s
    else if ltb 0 (length s)
    then hash_len_1_to_3 s
    else some k2

unfoldable pub hash_len_17_to_32 : List ℕ → Option ℕ
unfolding load64_end load64 hash_len_16 rotate_right
hash_len_17_to_32 s = do
  a0 ← load64 s 0
  b ← load64 s 8
  c0 ← load64_end s 8
  d0 ← load64_end s 16
  some (
      let a = wrapping_mul a0 k1 in
      let c = wrapping_mul c0 k2 in
      let d = wrapping_mul d0 k0 in
      hash_len_16
        (wrapping_add (wrapping_add (rotate_right (wrapping_sub a b) 43) (rotate_right c 30)) d)
        (wrapping_add (wrapping_sub (wrapping_add a (rotate_right (bit_xor b k3) 20)) c)
          (length s)))

-- A 16-byte hash of the 32 bytes at `s` and the seeds.
unfoldable pub weak_hash_len_32_with_seeds : List ℕ → ℕ → ℕ → Option (ℕ × ℕ)
unfolding load64 rotate_right
weak_hash_len_32_with_seeds s a0 b0 = do
  w ← load64 s 0
  x ← load64 s 8
  y ← load64 s 16
  z ← load64 s 24
  some (
      let a = wrapping_add a0 w in
      let b = rotate_right (wrapping_add (wrapping_add b0 a) z) 21 in
      let c = a in
      let a = wrapping_add (wrapping_add a x) y in
      let b = wrapping_add b (rotate_right a 44) in (wrapping_add a z, wrapping_add b c))

-- The loads of `hash_len_33_to_64`, and what it makes of them.
unfoldable pub mix_33_to_64 : ℕ → ℕ → ℕ → ℕ → ℕ → ℕ → ℕ → ℕ → ℕ → ℕ
unfolding rotate_right shift_mix
mix_33_to_64 len at0 at8 at16 at24 end8 end16 end24 end32 =
    let z = at24 in
    let a = wrapping_add at0 (wrapping_mul (wrapping_add len end16) k0) in
    let b = rotate_right (wrapping_add a z) 52 in
    let c = rotate_right a 37 in
    let a = wrapping_add a at8 in
    let c = wrapping_add c (rotate_right a 7) in
    let a = wrapping_add a at16 in
    let vf = wrapping_add a z in
    let vs = wrapping_add (wrapping_add b (rotate_right a 31)) c in
    let a = wrapping_add at16 end32 in
    let z = wrapping_add z end8 in
    let b = rotate_right (wrapping_add a z) 52 in
    let c = rotate_right a 37 in
    let a = wrapping_add a end24 in
    let c = wrapping_add c (rotate_right a 7) in
    let a = wrapping_add a end16 in
    let wf = wrapping_add a z in
    let ws = wrapping_add (wrapping_add b (rotate_right a 31)) c in
    let r = shift_mix (
      wrapping_add (wrapping_mul (wrapping_add vf ws) k2) (wrapping_mul (wrapping_add wf vs) k0)) in
    wrapping_mul (shift_mix (wrapping_add (wrapping_mul r k0) vs)) k2

unfoldable pub hash_len_33_to_64 : List ℕ → Option ℕ
unfolding load64_end load64 mix_33_to_64
hash_len_33_to_64 s = do
  at24 ← load64 s 24
  at0 ← load64 s 0
  end16 ← load64_end s 16
  at8 ← load64 s 8
  at16 ← load64 s 16
  end32 ← load64_end s 32
  end8 ← load64_end s 8
  end24 ← load64_end s 24
  some (mix_33_to_64 (length s) at0 at8 at16 at24 end8 end16 end24 end32)

-- The 56 bytes of state: v, w, x, y and z.
pub record City : Type 0 where
  pub v : ℕ × ℕ
  pub w : ℕ × ℕ
  pub x : ℕ
  pub y : ℕ
  pub z : ℕ

unfoldable pub mix_chunk : List ℕ → City → Option City
unfolding load64 rotate_right weak_hash_len_32_with_seeds
mix_chunk chunk st = do
  at8 ← load64 chunk 8
  at48 ← load64 chunk 48
  at40 ← load64 chunk 40
  at16 ← load64 chunk 16
  let x =
      bit_xor
        (wrapping_mul
          (rotate_right (wrapping_add (wrapping_add (wrapping_add st.x st.y) st.v.0) at8) 37) k1)
        st.w.1
  let y = wrapping_mul (rotate_right (wrapping_add (wrapping_add st.y st.v.1) at48) 42) k1
  let y = wrapping_add (wrapping_add y st.v.0) at40
  let z = wrapping_mul (rotate_right (wrapping_add st.z st.w.0) 33) k1
  v ← weak_hash_len_32_with_seeds chunk (wrapping_mul st.v.1 k1) (wrapping_add x st.w.0)
  w ← weak_hash_len_32_with_seeds (drop 32 chunk) (wrapping_add z st.w.1) (wrapping_add y at16)
  some (record { v = v; w = w; x = z; y = y; z = x })

-- The 64-byte chunks, of which there are `n`.
unfoldable pub mix_chunks : ℕ → List ℕ → City → Option City
unfolding mix_chunk
mix_chunks zero s st = some st
mix_chunks (suc n) s st = mix_chunk (take 64 s) st >>= mix_chunks n (drop 64 s)

-- The state before the chunks, from the string's end.
unfoldable pub mix_end : List ℕ → Option City
unfolding load64_end before_end load64 hash_len_16 weak_hash_len_32_with_seeds
mix_end s = do
  x ← load64_end s 40
  y0 ← load64_end s 16
  y1 ← load64_end s 56
  z0 ← load64_end s 48
  z1 ← load64_end s 24
  let y = wrapping_add y0 y1
  let z = hash_len_16 (wrapping_add z0 (length s)) z1
  v ← before_end s 64 >>= (λ at. weak_hash_len_32_with_seeds (drop at s) (length s) z)
  w ← before_end s 32 >>= (λ at. weak_hash_len_32_with_seeds (drop at s) (wrapping_add y k1) x)
  first ← load64 s 0
  some (record { v = v; w = w; x = wrapping_add (wrapping_mul x k1) first; y = y; z = z })

unfoldable pub hash_len_over_64 : List ℕ → Option ℕ
unfolding before_end mix_end mix_chunks hash_len_16 shift_mix
hash_len_over_64 s = do
  st ← mix_end s
  last ← before_end s 1
  st ← mix_chunks (last / 64) s st
  some (
      hash_len_16
        (wrapping_add (wrapping_add (hash_len_16 st.v.0 st.w.0) (wrapping_mul (shift_mix st.y) k1))
          st.z)
        (wrapping_add (hash_len_16 st.v.1 st.w.1) st.x))

unfoldable pub hash : List ℕ → Option ℕ
unfolding hash_len_0_to_16 hash_len_17_to_32 hash_len_33_to_64 hash_len_over_64
hash s =
    if leb (length s) 16
    then hash_len_0_to_16 s
    else if leb (length s) 32
    then hash_len_17_to_32 s
    else if leb (length s) 64
    then hash_len_33_to_64 s
    else hash_len_over_64 s
