-- ===== src/Util/Names/Order.antt =====
-- Comparing the keys of two names is comparing the names.
use mold_macho.Prelude.{
  ◌+◌, ◌-◌, zero, length-append, ◌≡◌, length, ◌*◌, ◌∷◌, length-replicate, ◌<◌, take, refl, compare,
  suc, replicate, length-take, [], arith, ◌++◌, List, ◌^◌, ℕ, Ordering, dec_lt, ◌≤◌,
}
use mold_macho.Prelude.Bytes.{All}
use mold_macho.Prelude.Words.{IsByte}
use mold_macho.Util.Names.{then_with, key_cmp, from_be_bytes, padded, name_sort_key, name_cmp}
use native.Mathlib.Nat.{pow-suc}

-- The number of the first `n` bytes, from the first byte on.
leading : ℕ → List ℕ → ℕ
leading zero name = 0
leading (suc n) [] = 0
leading (suc n) (x ∷ xs) = x * 256 ^ n + leading n xs

zeros : (n : ℕ) → from_be_bytes (replicate n 0) ≡ 0
unfolding from_be_bytes
zeros zero = refl
zeros (suc n) = omega (arith, zeros n)

padded_lem : (n : ℕ) (name : List ℕ) → from_be_bytes (padded n name) ≡ leading n name
unfolding from_be_bytes leading
padded_lem zero name = refl
padded_lem (suc n) [] = let e : suc n - 0 ≡ suc n = omega arith in rw e (zeros (suc n))
padded_lem (suc n) (x ∷ xs) =
    let size : length (take n xs ++ replicate (n - length (take n xs)) 0) ≡ n = omega (
      arith,
      length-append (take n xs) (replicate (n - length (take n xs)) 0),
      length-take n xs,
      length-replicate {A = ℕ} (n - length (take n xs)) 0,
    ) in
    let e : suc n - suc (length (take n xs)) ≡ n - length (take n xs) = omega arith in
    rw (e, size, padded_lem n xs) refl

leading_bound : (n : ℕ) (name : List ℕ) → All IsByte name → leading n name < 256 ^ n
unfolding leading
leading_bound zero name h = omega arith
leading_bound (suc n) [] h = omega (arith, leading_bound n [] h)
leading_bound (suc n) (x ∷ xs) (h, hs) =
    omega (arith, pow-suc 256 n, leading_bound n xs hs, at_most x (256 ^ n) h)
  where
    at_most : (b q : ℕ) → b < 256 → b * q ≤ 255 * q
    at_most b q hb = grind arith

below : (a b q : ℕ) → a < b → a * q + q ≤ b * q
below a b q h = grind arith

compare_digits :
    (p x y r s : ℕ)
    → r < p
    → s < p
    → compare (x * p + r) (y * p + s) ≡ then_with (compare x y) (compare r s)
compare_digits p x y r s hr hs = elim (dec_lt x y) [
  | yes l ↦ let f = below x y p l in ground arith
  | no l ↦ elim (dec_lt y x) [
    | yes g ↦ let f = below y x p g in ground arith
    | no g ↦ let e : x ≡ y = omega arith in rw e (ground arith)
  ]
]

then_same :
    (o p q : Ordering)
    → then_with p q ≡ q
    → then_with (then_with o p) (then_with o q) ≡ then_with o q
then_same Ordering.lt p q h = refl
then_same Ordering.eq p q h = h
then_same Ordering.gt p q h = refl

leading-cmp :
    (n : ℕ) (a b : List ℕ)
    → All IsByte a
    → All IsByte b
    → then_with (compare (leading n a) (leading n b)) (name_cmp a b) ≡ name_cmp a b
unfolding leading name_cmp
leading-cmp zero a b ha hb = refl
leading-cmp (suc n) [] [] ha hb = refl
leading-cmp (suc n) [] (y ∷ ys) ha hb = ground arith
leading-cmp (suc n) (x ∷ xs) [] ha hb = ground arith
leading-cmp (suc n) (x ∷ xs) (y ∷ ys) (ha, has) (hb, hbs) =
    let rest = leading-cmp n xs ys has hbs in
    rw
      (compare_digits (256 ^ n) x y (leading n xs) (leading n ys) (leading_bound n xs has)
        (leading_bound n ys hbs))
      (then_same (compare x y) (compare (leading n xs) (leading n ys)) (name_cmp xs ys) rest)

-- For names of bytes, comparing the keys gives the order of the names, prefixes before what extends
-- them.
pub name_sort_key-name_cmp :
    (a b : List ℕ)
    → All IsByte a
    → All IsByte b
    → key_cmp (name_sort_key a) (name_sort_key b) ≡ name_cmp a b
unfolding name_sort_key
name_sort_key-name_cmp a b ha hb = rw (padded_lem 8 a, padded_lem 8 b) (leading-cmp 8 a b ha hb)
