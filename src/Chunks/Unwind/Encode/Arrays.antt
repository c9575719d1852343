-- ===== src/Chunks/Unwind/Encode/Arrays.antt =====
-- Runs of 32-bit words in a byte string, for macho/chunks/unwind_info.rs.
use mold_macho.Prelude.{
  get_elem?, zero, List, drop, ◌<◌, length-append, append_assoc, ◌∙◌, ◌≡◌, refl, arith, [], length,
  ap, ◌%◌, ℕ, some, ◌+◌, ◌^◌, sym, suc, ◌++◌, ◌*◌, ◌∷◌,
}
use mold_macho.Prelude.Fallible.{some_inj}
use mold_macho.Prelude.Slices.{drop_add, drop_all}
use mold_macho.Util.Words.{
  to_le_bytes, read32, length-to_le_bytes, from_le_bytes-to_le_bytes, read_le, take-append,
}
use native.Mathlib.Nat.{mod-eq_of_lt}

abbrev pub words : List ℕ → List ℕ
words [] = []
words (w ∷ ws) = to_le_bytes 4 w ++ words ws

pub length-words : (ws : List ℕ) → length (words ws) ≡ 4 * length ws
length-words [] = refl
length-words (w ∷ ws) =
    omega
      (arith, length-append (to_le_bytes 4 w) (words ws), length-to_le_bytes 4 w, length-words ws)

pub words-append : (xs ys : List ℕ) → words (xs ++ ys) ≡ words xs ++ words ys
words-append [] ys = refl
words-append (x ∷ xs) ys =
    rw (words-append xs ys) (sym (append_assoc (to_le_bytes 4 x) (words xs) (words ys)))

pub read_le-here :
    (n v : ℕ) (rest : List ℕ) → read_le n (to_le_bytes n v ++ rest) ≡ some (v % 256 ^ n)
unfolding read_le
read_le-here n v rest = ground (
  arith,
  length-append (to_le_bytes n v) rest,
  length-to_le_bytes n v,
  take-append (to_le_bytes n v) rest n (length-to_le_bytes n v),
  from_le_bytes-to_le_bytes n v,
)

pub drop-le_bytes :
    (n k v : ℕ) (rest : List ℕ) → drop (n + k) (to_le_bytes n v ++ rest) ≡ drop k rest
drop-le_bytes n k v rest =
    sym (drop_add n k (to_le_bytes n v ++ rest))
    ∙ ap (drop k) (drop_all n (to_le_bytes n v) rest (sym (length-to_le_bytes n v)))

-- The word at an index of a run.
pub read32-words :
    (ws rest : List ℕ) (i w : ℕ)
    → get_elem? ws i ≡ some w
    → w < 2 ^ 32
    → read32 (drop (4 * i) (words ws ++ rest)) ≡ some w
unfolding read32
read32-words [] rest i w at h = absurd cc
read32-words (v ∷ ws) rest zero w at h =
    let assoc = append_assoc (to_le_bytes 4 v) (words ws) rest in
    rw (assoc, some_inj at)
      (read_le-here 4 w (words ws ++ rest) ∙ ap some (mod-eq_of_lt (omega arith)))
read32-words (v ∷ ws) rest (suc i) w at h =
    let assoc = append_assoc (to_le_bytes 4 v) (words ws) rest in
    let step : 4 * suc i ≡ 4 + 4 * i = omega arith in
    rw (assoc, step, drop-le_bytes 4 (4 * i) v (words ws ++ rest))
      (unfold read32 in read32-words ws rest i w at h)

-- The word that a byte string starts with, at an offset.
pub read32-at :
    (bytes : List ℕ) (at w : ℕ) (rest : List ℕ)
    → drop at bytes ≡ to_le_bytes 4 w ++ rest
    → w < 2 ^ 32
    → read32 (drop at bytes) ≡ some w
unfolding read32
read32-at bytes at w rest e h = rw e (read_le-here 4 w rest ∙ ap some (mod-eq_of_lt (omega arith)))

-- What follows the first `n` bytes that stand at an offset.
pub drop-past {ℓ} :
    {A : Type ℓ} (bytes : List A) (at n : ℕ) (front rest : List A)
    → drop at bytes ≡ front ++ rest
    → n ≡ length front
    → drop (at + n) bytes ≡ rest
drop-past bytes at n front rest e h = sym (drop_add at n bytes) ∙ rw e (drop_all n front rest h)
