-- ===== src/Prelude/SortBy.antt =====
-- The standard library's stable sort by a comparison.
use mathlib.Core.List.Perm
use mathlib.Core.List.{Perm}
use mathlib.Core.Path.{subst}
use mold_macho.Prelude.{
  true, false, ◌≡◌, refl, Bool, List, [], ◌∷◌, if◌then◌else◌, Bool-cases, inl, inr,
}
use mold_macho.Prelude.Bytes.{All}

module _ {ℓ} {A : Type ℓ} (le : A → A → Bool) where
  unfoldable pub insert_by : A → List A → List A
  insert_by a [] = a ∷ []
  insert_by a (x ∷ xs) = if le a x then a ∷ x ∷ xs else x ∷ insert_by a xs

  unfoldable pub sort_by : List A → List A
  unfolding insert_by
  sort_by [] = []
  sort_by (x ∷ xs) = insert_by x (sort_by xs)

  All-insert_by {κ} :
      (P : A → Type κ) (a : A) (xs : List A) → P a → All P xs → All P (insert_by a xs)
  unfolding insert_by
  All-insert_by P a [] h hs = (h, hs)
  All-insert_by P a (x ∷ xs) h (hx, hs) = elim (Bool-cases (le a x)) [
    | inl le_x ↦ rw le_x (h, (hx, hs))
    | inr gt_x ↦ rw gt_x (hx, All-insert_by P a xs h hs)
  ]

  pub All-sort_by {κ} : (P : A → Type κ) (xs : List A) → All P xs → All P (sort_by xs)
  unfolding sort_by
  All-sort_by P [] h = h
  All-sort_by P (x ∷ xs) (h, hs) = All-insert_by P x (sort_by xs) h (All-sort_by P xs hs)

-- Each element and the next one are in order.
abbrev pub Chain {ℓ κ} : {A : Type ℓ} → (A → A → Type κ) → List A → Type κ
Chain R [] = Unit
Chain R (x ∷ []) = Unit
Chain R (x ∷ y ∷ ys) = R x y × Chain R (y ∷ ys)

module _ {ℓ κ} {A : Type ℓ} (le : A → A → Bool) (R : A → A → Type κ)
    (before : (a b : A) → le a b ≡ true → R a b) (after : (a b : A) → le a b ≡ false → R b a) where
  insert_by-Chain : (a : A) (xs : List A) → Chain R xs → Chain R (insert_by le a xs)
  unfolding insert_by
  insert_by-Chain a [] h = tt
  insert_by-Chain a (x ∷ []) h = elim (Bool-cases (le a x)) [
    | inl le_x ↦ rw le_x (before a x le_x, tt)
    | inr gt_x ↦ rw gt_x (after a x gt_x, tt)
  ]
  insert_by-Chain a (x ∷ y ∷ ys) (h, hs) = elim (Bool-cases (le a x)) [
    | inl le_x ↦ rw le_x (before a x le_x, (h, hs))
    | inr gt_x ↦ elim (Bool-cases (le a y)) [
      | inl le_y ↦ rw (gt_x, le_y) (after a x gt_x, (before a y le_y, hs))
      | inr gt_y ↦
          let rest : Chain R (y ∷ insert_by le a ys) =
            subst (Chain R) {y = y ∷ insert_by le a ys} (rw gt_y refl)
              (insert_by-Chain a (y ∷ ys) hs) in
          rw (gt_x, gt_y) (h, rest)
    ]
  ]

  -- The sort puts the list in the order of the comparison.
  pub sort_by-Chain : (xs : List A) → Chain R (sort_by le xs)
  unfolding sort_by
  sort_by-Chain [] = tt
  sort_by-Chain (x ∷ xs) = insert_by-Chain x (sort_by le xs) (sort_by-Chain xs)

module _ {A : Type 0} (le : A → A → Bool) where
  insert_by-Perm : (a : A) (xs : List A) → Perm (insert_by le a xs) (a ∷ xs)
  unfolding insert_by
  insert_by-Perm a [] = Perm.refl (a ∷ [])
  insert_by-Perm a (x ∷ xs) = elim (Bool-cases (le a x)) [
    | inl le_x ↦ rw le_x (Perm.refl (a ∷ x ∷ xs))
    | inr gt_x ↦ rw gt_x (Perm.trans (Perm.cons x (insert_by-Perm a xs)) (Perm.swap a x xs))
  ]

  -- The sort keeps the elements.
  pub sort_by-Perm : (xs : List A) → Perm (sort_by le xs) xs
  unfolding sort_by
  sort_by-Perm [] = Perm.refl []
  sort_by-Perm (x ∷ xs) =
      Perm.trans (insert_by-Perm x (sort_by le xs)) (Perm.cons x (sort_by-Perm xs))
