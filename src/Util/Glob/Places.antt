-- ===== src/Util/Glob/Places.antt =====
-- Where a literal stands in a text, and what a token of one byte takes.
use mathlib.Core.Path.{subst}
use mold_macho.Prelude.{
  ap, Bool-cases, ℕ, List, arith, zero, ◌<◌, ◌∷◌, ◌≡◌, ◌↔◌, inr, length, Option, [], none, ◌≤◌,
  drop, ◌==◌, length-drop, suc, ◌⊎◌, inl, sym, some,
}
use mold_macho.Prelude.Fallible.{some_inj}
use mold_macho.Util.Glob.{strip_prefix, accept, Chars}
use mold_macho.Util.Glob.Meaning.{Literally, Accepted-Later, Later, strip_prefix-none, Accepted}
use mold_macho.Util.Glob.Search.{other}

-- What the search of memchr promises: the first place of the literal, or that there is none.
abbrev pub Finds : (List ℕ → List ℕ → Option ℕ) → Type 0
Finds find =
    (s literal : List ℕ)
    → ((find s literal ≡ none) × ((k : ℕ) → strip_prefix literal (drop k s) ≡ none))
      ⊎ ((place : ℕ) × (rest : List ℕ) × (find s literal ≡ some place)
          × (strip_prefix literal (drop place s) ≡ some rest)
          × ((k : ℕ) → k < place → strip_prefix literal (drop k s) ≡ none))

pub nowhere :
    (literal : List ℕ) (K : List ℕ → Type 0) (s : List ℕ)
    → ((k : ℕ) → strip_prefix literal (drop k s) ≡ none)
    → ¬ Later (Literally literal K) s
nowhere literal K [] none_at = strip_prefix-none literal K [] (none_at 0)
nowhere literal K (c ∷ s) none_at = λ h. elim h [
  | inl m ↦ strip_prefix-none literal K (c ∷ s) (none_at 0) m
  | inr m ↦ nowhere literal K s (λ k. none_at (suc k)) m
]

-- The places before the first occurrence can be skipped.
pub skip :
    (literal : List ℕ) (K : List ℕ → Type 0) (place : ℕ) (s : List ℕ)
    → ((k : ℕ) → k < place → strip_prefix literal (drop k s) ≡ none)
    → Later (Literally literal K) (drop place s) ↔ Later (Literally literal K) s
skip literal K zero s first = (λ h. h, λ h. h)
skip literal K (suc place) [] first = (λ h. h, λ h. h)
skip literal K (suc place) (c ∷ s) first =
    let (into, out) = skip literal K place s (λ k lt. first (suc k) (omega arith)) in
    (
      λ h. inr (into h),
      λ h. elim h [
        | inl m ↦ absurd (strip_prefix-none literal K (c ∷ s) (first 0 (omega arith)) m)
        | inr m ↦ out m
      ],
    )

pub strip_prefix-drop :
    (literal s rest : List ℕ) → strip_prefix literal s ≡ some rest → drop (length literal) s ≡ rest
unfolding strip_prefix
strip_prefix-drop [] s rest e = some_inj e
strip_prefix-drop (x ∷ literal) [] rest e = cc
strip_prefix-drop (x ∷ literal) (c ∷ s) rest e = elim (Bool-cases (x == c)) [
  | inl same ↦ strip_prefix-drop literal s rest (rw same at e)
  | inr other ↦ absurd (ground arith)
]

pub length-strip_prefix :
    (literal s rest : List ℕ) → strip_prefix literal s ≡ some rest → length rest ≤ length s
length-strip_prefix literal s rest e =
    omega (
      arith,
      ap (λ l. length l) (strip_prefix-drop literal s rest e),
      length-drop (length literal) s,
    )

-- What a test of one byte leaves.
pub accept-takes :
    (chars : Chars) (K : List ℕ → Type 0) (s rest : List ℕ)
    → accept chars s ≡ some rest
    → (K rest ↔ Accepted chars K s)
      × (Later (Accepted chars K) s → Later K rest)
      × (length rest ≤ length s)
unfolding accept
accept-takes chars K [] rest e = cc
accept-takes chars K (c ∷ s) rest e = elim (Bool-cases (chars c)) [
  | inl yes_c ↦
      let same : s ≡ rest = some_inj (rw yes_c at e) in
      (
        (λ h. (yes_c, subst K (sym same) h), λ h. subst K same h.1),
        λ h. subst (Later K) same (Accepted-Later chars K c s h),
        omega (arith, ap (λ l. length l) same),
      )
  | inr no_c ↦ absurd (ground arith)
]

pub accept-fails :
    (chars : Chars) (K : List ℕ → Type 0) (s : List ℕ)
    → accept chars s ≡ none
    → ¬ Accepted chars K s
unfolding accept
accept-fails chars K [] e = λ h. h
accept-fails chars K (c ∷ s) e = elim (Bool-cases (chars c)) [
  | inl yes_c ↦ absurd (ground arith)
  | inr no_c ↦ λ h. ground (arith, h.0)
]
