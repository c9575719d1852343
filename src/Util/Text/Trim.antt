-- ===== src/Util/Text/Trim.antt =====
-- What trim_space cuts off and what it leaves.
use mathlib.Core.Path.{subst}
use mold_macho.Prelude.{
  false, arith, [], some, none, inr, suc, zero, inl, Bool-cases, length, ◌≡◌, ap, ◌<◌, ◌++◌, ◌⊎◌,
  true, ℕ, ◌∷◌, List, refl, append_assoc, sym, ◌≤◌, length-append, ◌∙◌, append-nil,
}
use mold_macho.Prelude.Bytes.{All, All-append}
use mold_macho.Util.Text.{split_last, trim_start, trim_end, is_space, trim_space}

-- A list of white space.
abbrev pub AllSpace : List ℕ → Type 0
AllSpace bytes = All (λ c. is_space c ≡ true) bytes

-- A text that does not end in white space, with what stands before its last byte.
abbrev pub EndsBare : List ℕ → Type 0
EndsBare bytes =
    (bytes ≡ []) ⊎ ((front : List ℕ) × (c : ℕ) × (bytes ≡ front ++ c ∷ []) × (is_space c ≡ false))

-- A text that does not start with white space.
abbrev pub StartsBare : List ℕ → Type 0
StartsBare [] = Unit
StartsBare (c ∷ cs) = is_space c ≡ false

trim_start_lem :
    (bytes : List ℕ)
    → (before : List ℕ) × AllSpace before
      × (bytes ≡ before ++ trim_start bytes)
      × StartsBare (trim_start bytes)
unfolding trim_start
trim_start_lem [] = ([], tt, refl, tt)
trim_start_lem (c ∷ cs) = elim (Bool-cases (is_space c)) [
  | inl space ↦
      let (before, spaces, whole, bare) = trim_start_lem cs in
      rw space (c ∷ before, (space, spaces), ap (λ l. c ∷ l) whole, bare)
  | inr other ↦ rw other ([], tt, refl, other)
]

-- The last byte is split off the end, unless there is none.
split_last_lem :
    (bytes : List ℕ)
    → ((split_last bytes ≡ none) × (bytes ≡ []))
      ⊎ ((front : List ℕ) × (c : ℕ) × (split_last bytes ≡ some (front, c))
          × (bytes ≡ front ++ c ∷ []))
unfolding split_last
split_last_lem [] = inl (refl, refl)
split_last_lem (x ∷ xs) = elim (split_last_lem xs) [
  | inl (e, empty) ↦ inr ([], x, rw e refl, ap (λ l. x ∷ l) empty)
  | inr (front, c, e, whole) ↦ inr (x ∷ front, c, rw e refl, ap (λ l. x ∷ l) whole)
]

module _ (fuel : ℕ) (bytes : List ℕ) where
  trim_end_empty : split_last bytes ≡ none → trim_end (suc fuel) bytes ≡ some bytes
  unfolding trim_end
  trim_end_empty e = rw (e, trim_end) refl

  trim_end_space :
      (front : List ℕ) (c : ℕ)
      → split_last bytes ≡ some (front, c)
      → is_space c ≡ true
      → trim_end (suc fuel) bytes ≡ trim_end fuel front
  unfolding trim_end
  trim_end_space front c e space = rw (e, trim_end) (rw space refl)

  trim_end_bare :
      (front : List ℕ) (c : ℕ)
      → split_last bytes ≡ some (front, c)
      → is_space c ≡ false
      → trim_end (suc fuel) bytes ≡ some bytes
  unfolding trim_end
  trim_end_bare front c e other = rw (e, trim_end) (rw other refl)

trim_end_lem :
    (fuel : ℕ) (bytes : List ℕ)
    → length bytes < fuel
    → (result after : List ℕ) × (trim_end fuel bytes ≡ some result)
      × AllSpace after
      × (bytes ≡ result ++ after)
      × EndsBare result
trim_end_lem zero bytes h = absurd (omega arith)
trim_end_lem (suc fuel) bytes h = elim (split_last_lem bytes) [
  | inl (e, empty) ↦ (bytes, [], trim_end_empty fuel bytes e, tt, sym (append-nil bytes), inl empty)
  | inr (front, c, e, whole) ↦
      let shorter : length front < fuel =
        omega (arith, length-append front (c ∷ []), ap (λ l. length l) whole) in
      let (result, after, trimmed, spaces, parts, bare) = trim_end_lem fuel front shorter in
      elim (Bool-cases (is_space c)) [
        | inl space ↦ (
          result,
          after ++ c ∷ [],
          trim_end_space fuel bytes front c e space ∙ trimmed,
          All-append (λ x. is_space x ≡ true) after (c ∷ []) spaces (space, tt),
          whole ∙ ap (λ l. l ++ c ∷ []) parts ∙ append_assoc result after (c ∷ []),
          bare,
        )
        | inr other ↦ (
          bytes,
          [],
          trim_end_bare fuel bytes front c e other,
          tt,
          sym (append-nil bytes),
          inr (front, c, whole, other),
        )
      ]
]

StartsBare-prefix : (result after : List ℕ) → StartsBare (result ++ after) → StartsBare result
StartsBare-prefix [] after h = tt
StartsBare-prefix (c ∷ cs) after h = h

length-trim_start : (bytes : List ℕ) → length (trim_start bytes) ≤ length bytes
length-trim_start bytes =
    let (before, spaces, whole, bare) = trim_start_lem bytes in
    omega (arith, length-append before (trim_start bytes), ap (λ l. length l) whole)

-- `trim_space` ends, and cuts nothing but white space off the two ends: what is left neither starts
-- nor ends with white space.
pub trim_space-StartsBare :
    (bytes : List ℕ)
    → (before result after : List ℕ) × (trim_space bytes ≡ some result)
      × (bytes ≡ before ++ (result ++ after))
      × AllSpace before
      × AllSpace after
      × StartsBare result
      × EndsBare result
unfolding trim_space
trim_space-StartsBare bytes =
    let (before, spaces, whole, bare) = trim_start_lem bytes in
    let (result, after, trimmed, spaces', parts, bare') =
      trim_end_lem (suc (length bytes)) (trim_start bytes)
        (omega (arith, length-trim_start bytes)) in
    (
      before,
      result,
      after,
      trimmed,
      whole ∙ ap (λ l. before ++ l) parts,
      spaces,
      spaces',
      StartsBare-prefix result after (subst StartsBare parts bare),
      bare',
    )
