-- ===== src/Prelude/Sort.antt =====
-- What the source uses of the standard library's sorts: a list of numbers in ascending order.
use mold_macho.Prelude.{
  ℕ, leb, if◌then◌else◌, [], ◌∷◌, List, inl, ◌≡◌, ◌+◌, ◌==◌, arith, ◌≤◌, refl, inr, Bool-cases,
}
use mold_macho.Prelude.Bytes.{All}

unfoldable pub insert : ℕ → List ℕ → List ℕ
insert a [] = a ∷ []
insert a (x ∷ xs) = if leb a x then a ∷ x ∷ xs else x ∷ insert a xs

unfoldable pub sort : List ℕ → List ℕ
unfolding insert
sort [] = []
sort (x ∷ xs) = insert x (sort xs)

All-insert {κ} : (P : ℕ → Type κ) (a : ℕ) (xs : List ℕ) → P a → All P xs → All P (insert a xs)
unfolding insert
All-insert P a [] h hs = (h, hs)
All-insert P a (x ∷ xs) h (hx, hs) = elim (Bool-cases (leb a x)) [
  | inl le ↦ rw le (h, (hx, hs))
  | inr gt ↦ rw gt (hx, All-insert P a xs h hs)
]

pub All-sort {κ} : (P : ℕ → Type κ) (xs : List ℕ) → All P xs → All P (sort xs)
unfolding sort
All-sort P [] h = h
All-sort P (x ∷ xs) (h, hs) = All-insert P x (sort xs) h (All-sort P xs hs)

-- Each element is at most the next one.
abbrev pub IsSorted : List ℕ → Type 0
IsSorted [] = Unit
IsSorted (x ∷ []) = Unit
IsSorted (x ∷ y ∷ ys) = (x ≤ y) × IsSorted (y ∷ ys)

insert-IsSorted : (a : ℕ) (xs : List ℕ) → IsSorted xs → IsSorted (insert a xs)
unfolding insert
insert-IsSorted a [] h = tt
insert-IsSorted a (x ∷ []) h = ground arith
insert-IsSorted a (x ∷ y ∷ ys) (h, hs) = ground (arith, insert-IsSorted a (y ∷ ys) hs)

pub sort-IsSorted : (xs : List ℕ) → IsSorted (sort xs)
unfolding sort
sort-IsSorted [] = tt
sort-IsSorted (x ∷ xs) = insert-IsSorted x (sort xs) (sort-IsSorted xs)

-- How often a number occurs.
abbrev pub occurrences : ℕ → List ℕ → ℕ
occurrences a [] = 0
occurrences a (x ∷ xs) = (if a == x then 1 else 0) + occurrences a xs

occurrences-insert : (b a : ℕ) (xs : List ℕ) → occurrences b (insert a xs) ≡ occurrences b (a ∷ xs)
unfolding insert
occurrences-insert b a [] = refl
occurrences-insert b a (x ∷ xs) = ground (arith, occurrences-insert b a xs)

pub occurrences-sort : (b : ℕ) (xs : List ℕ) → occurrences b (sort xs) ≡ occurrences b xs
unfolding sort
occurrences-sort b [] = refl
occurrences-sort b (x ∷ xs) = omega (arith, occurrences-insert b x (sort xs), occurrences-sort b xs)
