-- ===== src/Util/SipHash.antt =====
-- macho/util/siphash.rs: SipHash with a configurable number of rounds. The const generic
-- parameters are arguments.
pub mod Streaming
pub mod Finish
use mold_macho.Prelude.{
  ℕ, zero, ◌==◌, bit_xor, ◌+◌, suc, replicate, ◌∷◌, ◌%◌, bit_or, take, ◌*◌, length, ◌-◌, List,
  if◌then◌else◌, ◌^◌, [], ltb, ◌++◌, drop,
}
use mold_macho.Util.Words.{to_le_bytes, wrapping_add, from_le_bytes, rotate_left}

pub record Words : Type 0 where
  pub v0 : ℕ
  pub v1 : ℕ
  pub v2 : ℕ
  pub v3 : ℕ

-- The hasher: `buf` has eight bytes, of which the first `buflen` wait for more.
pub record SipHash : Type 0 where
  pub v : Words
  pub buf : List ℕ
  pub buflen : ℕ
  pub sum : ℕ

-- The second half of a round.
unfoldable pub round_end : ℕ → ℕ → ℕ → ℕ → Words
round_end v0 v1 v2 v3 =
    let v0' = wrapping_add v0 v3 in
    let v3' = bit_xor (rotate_left v3 21) v0' in
    let v2' = wrapping_add v2 v1 in
    let v1' = bit_xor (rotate_left v1 17) v2' in
    record { v0 = v0'; v1 = v1'; v2 = rotate_left v2' 32; v3 = v3' }

unfoldable pub round : Words → Words
unfolding round_end
round s =
    let v0 = wrapping_add s.v0 s.v1 in
    let v1 = bit_xor (rotate_left s.v1 13) v0 in
    let v2 = wrapping_add s.v2 s.v3 in
    let v3 = bit_xor (rotate_left s.v3 16) v2 in round_end (rotate_left v0 32) v1 v2 v3

unfoldable pub rounds : ℕ → Words → Words
unfolding round
rounds zero s = s
rounds (suc n) s = rounds n (round s)

unfoldable pub compress : ℕ → Words → ℕ → Words
unfolding rounds
compress c_rounds s m =
    let mixed = rounds c_rounds (record s { v3 = bit_xor s.v3 m }) in
    record mixed { v0 = bit_xor mixed.v0 m }

-- `new`, from the 16 bytes of the key.
unfoldable pub new : ℕ → List ℕ → SipHash
unfolding from_le_bytes
new outlen key =
    let k0 = from_le_bytes (take 8 key) in
    let k1 = from_le_bytes (drop 8 key) in
    let v1 = bit_xor 0x646f_7261_6e64_6f6d k1 in
    record {
      v = record {
        v0 = bit_xor 0x736f_6d65_7073_6575 k0;
        v1 = if outlen == 128 then bit_xor v1 0xee else v1;
        v2 = bit_xor 0x6c79_6765_6e65_7261 k0;
        v3 = bit_xor 0x7465_6462_7974_6573 k1;
      };
      buf = replicate 8 0;
      buflen = 0;
      sum = 0;
    }

-- The bytes `src` copied over those of `buf` from `at` on.
abbrev pub copy_at : List ℕ → ℕ → List ℕ → List ℕ
copy_at buf at src = take at buf ++ (src ++ drop (at + length src) buf)

-- The whole words of a message, compressed, and the bytes after them.
unfoldable pub compress_words : ℕ → Words → List ℕ → Words × List ℕ
compress_words c v (b0 ∷ b1 ∷ b2 ∷ b3 ∷ b4 ∷ b5 ∷ b6 ∷ b7 ∷ msg) =
    compress_words c (compress c v (from_le_bytes (b0 ∷ b1 ∷ b2 ∷ b3 ∷ b4 ∷ b5 ∷ b6 ∷ b7 ∷ []))) msg
compress_words c v msg = (v, msg)

-- The end of `update`, once the buffer is empty.
unfoldable pub update_words : ℕ → SipHash → List ℕ → SipHash
unfolding compress_words
update_words c h msg =
    let (v, rest) = compress_words c h.v msg in
    record h { v = v; buf = copy_at h.buf 0 rest; buflen = length rest }

unfoldable pub update : ℕ → SipHash → List ℕ → SipHash
unfolding update_words
update c h msg =
    let h1 = record h { sum = (h.sum + length msg % 256) % 256 } in
    if h.buflen == 0
    then update_words c h1 msg
    else if ltb (h.buflen + length msg) 8
    then record h1 { buf = copy_at h.buf h.buflen msg; buflen = h.buflen + length msg }
    else let n = 8 - h.buflen in
      let filled = copy_at h.buf h.buflen (take n msg) in
      update_words c
        (record h1 { v = compress c h.v (from_le_bytes filled); buf = filled; buflen = 0 })
        (drop n msg)

unfoldable pub update_u64 : ℕ → SipHash → ℕ → SipHash
unfolding update to_le_bytes
update_u64 c h word =
    if h.buflen == 0
    then record h { sum = (h.sum + 8) % 256; v = compress c h.v word }
    else update c h (to_le_bytes 8 word)

-- `out` is the eight or sixteen bytes of the hash.
abbrev pub fold_words : Words → ℕ
fold_words v = bit_xor (bit_xor (bit_xor v.v0 v.v1) v.v2) v.v3

unfoldable pub finish : ℕ → ℕ → ℕ → SipHash → List ℕ
unfolding compress to_le_bytes
finish c d outlen h =
    let tail = take h.buflen h.buf ++ replicate (8 - h.buflen) 0 in
    let v = compress c h.v (bit_or (h.sum * 2 ^ 56) (from_le_bytes tail)) in
    let v' = rounds d (record v { v2 = bit_xor v.v2 (if outlen == 128 then 0xee else 0xff) }) in
    let v'' = rounds d (record v' { v1 = bit_xor v'.v1 0xdd }) in
    if outlen == 128
    then to_le_bytes 8 (fold_words v') ++ to_le_bytes 8 (fold_words v'')
    else to_le_bytes 8 (fold_words v')
