-- ===== src/Tests/Matching.antt =====
-- Runs of the glob matcher, with a search for literals, and its theorems at concrete patterns.
use mold_macho.Prelude.{
  ℕ, ◌∷◌, none, List, inl, suc, Option, inr, refl, ◌≡◌, arith, [], some, Option-cases, true, zero,
  ◌<◌, drop, ◌↔◌, false,
}
use mold_macho.Prelude.Bytes.{codes}
use mold_macho.Prelude.Slices.{drop-nil}
use mold_macho.Util.Glob.{matches, bracket_chars, strip_prefix, str, star, Chars}
use mold_macho.Util.Glob.Class.{bracket_chars-InClass, InClass}
use mold_macho.Util.Glob.Loop.{matches-Answers}
use mold_macho.Util.Glob.Meaning.{Matches}
use mold_macho.Util.Glob.Places.{Finds}
use mold_macho.Util.Glob.Search.{Answers}

abbrev place_of : Option (List ℕ) → Option ℕ → Option ℕ
place_of (some rest) place = some 0
place_of none none = none
place_of none (some place) = some (suc place)

-- The first place of a literal.
unfoldable pub first_place : List ℕ → List ℕ → Option ℕ
unfolding strip_prefix
first_place [] literal = place_of (strip_prefix literal []) none
first_place (c ∷ s) literal = place_of (strip_prefix literal (c ∷ s)) (first_place s literal)

pub first_place-Finds : Finds first_place
unfolding first_place
first_place-Finds [] literal = elim (Option-cases (strip_prefix literal [])) [
  | inl e ↦ inl (rw e refl, λ k. rw (drop-nil {A = ℕ} k) e)
  | inr (rest, e) ↦ inr (0, rest, rw e refl, e, λ k h. absurd (omega arith))
]
first_place-Finds (c ∷ s) literal = elim (Option-cases (strip_prefix literal (c ∷ s))) [
  | inr (rest, e) ↦ inr (0, rest, rw e refl, e, λ k h. absurd (omega arith))
  | inl e ↦ elim (first_place-Finds s literal) [
    | inl (nothing, at) ↦ inl (rw (e, nothing) refl, none_at c s literal e at)
    | inr (place, rest, found, at, before) ↦
        inr (suc place, rest, rw (e, found) refl, at, none_before c s literal place e before)
  ]
]
  where
    none_at :
        (c : ℕ) (s literal : List ℕ)
        → strip_prefix literal (c ∷ s) ≡ none
        → ((k : ℕ) → strip_prefix literal (drop k s) ≡ none)
        → (k : ℕ) → strip_prefix literal (drop k (c ∷ s)) ≡ none
    none_at c s literal e at zero = e
    none_at c s literal e at (suc k) = at k

    none_before :
        (c : ℕ) (s literal : List ℕ) (place : ℕ)
        → strip_prefix literal (c ∷ s) ≡ none
        → ((k : ℕ) → k < place → strip_prefix literal (drop k s) ≡ none)
        → (k : ℕ) → k < suc place
        → strip_prefix literal (drop k (c ∷ s)) ≡ none
    none_before c s literal place e before zero h = e
    none_before c s literal place e before (suc k) h = before k (omega arith)

matches-Answers_example :
    Answers
      (Matches (star ∷ str (codes "ab") ∷ []) (codes "xab"))
      (matches first_place (star ∷ str (codes "ab") ∷ []) (codes "xab"))
matches-Answers_example =
    matches-Answers first_place (star ∷ str (codes "ab") ∷ []) (codes "xab") first_place-Finds

-- The bytes from a to c.
unfoldable a_to_c : Chars
unfolding bracket_chars
a_to_c = elim (bracket_chars (codes "a-c")) [ none ↦ λ x. false | some chars ↦ chars ]

a_to_c-chars : bracket_chars (codes "a-c") ≡ some a_to_c
unfolding bracket_chars a_to_c
a_to_c-chars = refl

bracket_chars-InClass_example : (a_to_c 0x62 ≡ true) ↔ InClass none (codes "a-c") 0x62
bracket_chars-InClass_example = bracket_chars-InClass (codes "a-c") a_to_c 0x62 a_to_c-chars
