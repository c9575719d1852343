-- ===== src/Util/Names.antt =====
-- name_sort_key of macho/util/mod.rs, and the order of byte strings.
pub mod Order
use mold_macho.Prelude.{
  ℕ, replicate, ◌+◌, compare, length, Ordering, List, take, ◌-◌, ◌^◌, [], ◌++◌, ◌*◌, ◌∷◌,
}

-- The order of two results, the second deciding if the first are equal.
abbrev pub then_with : Ordering → Ordering → Ordering
then_with Ordering.lt other = Ordering.lt
then_with Ordering.eq other = other
then_with Ordering.gt other = Ordering.gt

-- The order of byte slices.
unfoldable pub name_cmp : List ℕ → List ℕ → Ordering
name_cmp [] [] = Ordering.eq
name_cmp [] (y ∷ ys) = Ordering.lt
name_cmp (x ∷ xs) [] = Ordering.gt
name_cmp (x ∷ xs) (y ∷ ys) = then_with (compare x y) (name_cmp xs ys)

-- `u64::from_be_bytes`, on any number of bytes.
unfoldable pub from_be_bytes : List ℕ → ℕ
from_be_bytes [] = 0
from_be_bytes (b ∷ bytes) = b * 256 ^ length bytes + from_be_bytes bytes

-- The first `n` bytes of a name, with zeros behind a shorter one.
abbrev pub padded : ℕ → List ℕ → List ℕ
padded n name = take n name ++ replicate (n - length (take n name)) 0

unfoldable pub name_sort_key : List ℕ → ℕ × List ℕ
unfolding from_be_bytes
name_sort_key name = (from_be_bytes (padded 8 name), name)

-- The order of pairs, as the sorts compare the keys.
abbrev pub key_cmp : ℕ × List ℕ → ℕ × List ℕ → Ordering
key_cmp (p, a) (q, b) = then_with (compare p q) (name_cmp a b)
