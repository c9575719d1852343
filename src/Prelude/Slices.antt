-- ===== src/Prelude/Slices.antt =====
-- Slices of appended lists.
use mold_macho.Prelude.{
  get_elem?, ◌<◌, ◌+◌, length, ◌≡◌, arith, ◌++◌, ◌≤◌, drop, [], refl, ap, ◌∙◌, sym, zero, ◌∷◌, List,
  suc, ℕ, take, some,
}

pub drop-nil {ℓ} : {A : Type ℓ} (k : ℕ) → drop {A = A} k [] ≡ []
drop-nil zero = refl
drop-nil (suc k) = refl

pub drop_add {ℓ} : {A : Type ℓ} (j k : ℕ) (xs : List A) → drop k (drop j xs) ≡ drop (j + k) xs
drop_add zero k xs = let e : 0 + k ≡ k = omega arith in rw e refl
drop_add (suc j) k [] = drop-nil k ∙ sym (drop-nil (suc j + k))
drop_add (suc j) k (x ∷ xs) =
    let e : suc j + k ≡ suc (j + k) = omega arith in rw e (drop_add j k xs)

pub take_append_le {ℓ} :
    {A : Type ℓ} (n : ℕ) (xs ys : List A) → n ≤ length xs → take n (xs ++ ys) ≡ take n xs
take_append_le zero xs ys h = refl
take_append_le (suc n) [] ys h = absurd (omega arith)
take_append_le (suc n) (x ∷ xs) ys h = ap (λ l. x ∷ l) (take_append_le n xs ys (omega arith))

pub drop_append_le {ℓ} :
    {A : Type ℓ} (n : ℕ) (xs ys : List A) → n ≤ length xs → drop n (xs ++ ys) ≡ drop n xs ++ ys
drop_append_le zero xs ys h = refl
drop_append_le (suc n) [] ys h = absurd (omega arith)
drop_append_le (suc n) (x ∷ xs) ys h = drop_append_le n xs ys (omega arith)

pub drop_all {ℓ} : {A : Type ℓ} (n : ℕ) (xs ys : List A) → n ≡ length xs → drop n (xs ++ ys) ≡ ys
drop_all n [] ys e = rw e refl
drop_all zero (x ∷ xs) ys e = absurd (omega arith)
drop_all (suc n) (x ∷ xs) ys e = drop_all n xs ys (omega arith)

pub take_all {ℓ} : {A : Type ℓ} (n : ℕ) (xs ys : List A) → n ≡ length xs → take n (xs ++ ys) ≡ xs
take_all n [] ys e = rw e refl
take_all zero (x ∷ xs) ys e = absurd (omega arith)
take_all (suc n) (x ∷ xs) ys e = ap (λ l. x ∷ l) (take_all n xs ys (omega arith))

pub get_elem?-append {ℓ} :
    {A : Type ℓ} (xs ys : List A) (k : ℕ) (x : A)
    → get_elem? xs k ≡ some x
    → get_elem? (xs ++ ys) k ≡ some x
get_elem?-append [] ys k x h = absurd cc
get_elem?-append (y ∷ xs) ys zero x h = h
get_elem?-append (y ∷ xs) ys (suc k) x h = get_elem?-append xs ys k x h

pub get_elem?-append_here {ℓ} :
    {A : Type ℓ} (xs ys : List A) (y : A) → get_elem? (xs ++ y ∷ ys) (length xs) ≡ some y
get_elem?-append_here [] ys y = refl
get_elem?-append_here (x ∷ xs) ys y = get_elem?-append_here xs ys y

pub get_elem?-drop {ℓ} :
    {A : Type ℓ} (n : ℕ) (xs : List A) (k : ℕ) → get_elem? (drop n xs) k ≡ get_elem? xs (n + k)
get_elem?-drop zero xs k = let e : 0 + k ≡ k = omega arith in rw e refl
get_elem?-drop (suc n) [] k = refl
get_elem?-drop (suc n) (x ∷ xs) k =
    let e : suc n + k ≡ suc (n + k) = omega arith in rw e (get_elem?-drop n xs k)

pub get_elem?-take {ℓ} :
    {A : Type ℓ} (n : ℕ) (xs : List A) (k : ℕ) → k < n → get_elem? (take n xs) k ≡ get_elem? xs k
get_elem?-take zero xs k h = absurd (omega arith)
get_elem?-take (suc n) [] k h = refl
get_elem?-take (suc n) (x ∷ xs) zero h = refl
get_elem?-take (suc n) (x ∷ xs) (suc k) h = get_elem?-take n xs k (omega arith)

pub get_elem?-in {ℓ} :
    {A : Type ℓ} (xs : List A) (k : ℕ) (x : A) → get_elem? xs k ≡ some x → k < length xs
get_elem?-in [] k x h = absurd cc
get_elem?-in (y ∷ xs) zero x h = omega arith
get_elem?-in (y ∷ xs) (suc k) x h = omega (arith, get_elem?-in xs k x h)
