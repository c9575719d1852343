-- ===== src/Util/Glob/Meaning.antt =====
-- What a list of tokens and what a pattern match, without the matcher's search.
use mathlib.Core.Path.{subst}
use mold_macho.Prelude.{
  List, ◌⊎◌, ◌≡◌, ℕ, ==_iff, some, ◌∷◌, inl, sym, arith, ◌==◌, none, inr, Bool-cases, true, ◌↔◌, [],
}
use mold_macho.Prelude.Fallible.{some_inj}
use mold_macho.Util.Glob.{question, Token, str, bracket, strip_prefix, Chars, star}

-- Some text from here on, at the place of a star.
abbrev pub Later : (List ℕ → Type 0) → List ℕ → Type 0
Later K [] = K []
Later K (c ∷ s) = K (c ∷ s) ⊎ Later K s

-- The literal stands here, and the rest after it.
abbrev pub Literally : List ℕ → (List ℕ → Type 0) → List ℕ → Type 0
Literally [] K s = K s
Literally (x ∷ literal) K [] = ⊥
Literally (x ∷ literal) K (c ∷ s) = (x ≡ c) × Literally literal K s

abbrev pub Accepted : Chars → (List ℕ → Type 0) → List ℕ → Type 0
Accepted chars K [] = ⊥
Accepted chars K (c ∷ s) = (chars c ≡ true) × K s

-- The tokens match a text up to somewhere, and `K` holds of what is left.
abbrev pub Match : List Token → (List ℕ → Type 0) → List ℕ → Type 0
Match [] K s = K s
Match (str literal ∷ tokens) K s = Literally literal (Match tokens K) s
Match (star ∷ tokens) K s = Later (Match tokens K) s
Match (question ∷ tokens) K s = Accepted (λ c. true) (Match tokens K) s
Match (bracket chars ∷ tokens) K s = Accepted chars (Match tokens K) s

abbrev pub IsEnd : List ℕ → Type 0
IsEnd [] = Unit
IsEnd (c ∷ s) = ⊥

-- The tokens match the whole text.
abbrev pub Matches : List Token → List ℕ → Type 0
Matches tokens s = Match tokens IsEnd s

pub Later-here : (K : List ℕ → Type 0) (s : List ℕ) → K s → Later K s
Later-here K [] h = h
Later-here K (c ∷ s) h = inl h

pub Later-flat : (K : List ℕ → Type 0) (s : List ℕ) → Later (Later K) s → Later K s
Later-flat K [] h = h
Later-flat K (c ∷ s) (inl h) = h
Later-flat K (c ∷ s) (inr h) = inr (Later-flat K s h)

pub Later-map :
    (K L : List ℕ → Type 0) → ((s : List ℕ) → K s → L s) → (s : List ℕ) → Later K s → Later L s
Later-map K L f [] h = f [] h
Later-map K L f (c ∷ s) (inl h) = inl (f (c ∷ s) h)
Later-map K L f (c ∷ s) (inr h) = inr (Later-map K L f s h)

pub Literally-map :
    (literal : List ℕ) (K L : List ℕ → Type 0)
    → ((s : List ℕ) → K s → L s)
    → (s : List ℕ) → Literally literal K s
    → Literally literal L s
Literally-map [] K L f s h = f s h
Literally-map (x ∷ literal) K L f [] h = h
Literally-map (x ∷ literal) K L f (c ∷ s) (e, h) = (e, Literally-map literal K L f s h)

pub Accepted-map :
    (chars : Chars) (K L : List ℕ → Type 0)
    → ((s : List ℕ) → K s → L s)
    → (s : List ℕ) → Accepted chars K s
    → Accepted chars L s
Accepted-map chars K L f [] h = h
Accepted-map chars K L f (c ∷ s) (e, h) = (e, f s h)

-- A later place for a byte and what follows it is a later place for what follows it.
pub Accepted-Later :
    (chars : Chars) (K : List ℕ → Type 0) (c : ℕ) (s : List ℕ)
    → Later (Accepted chars K) (c ∷ s)
    → Later K s
Accepted-Later chars K c s (inl (e, h)) = Later-here K s h
Accepted-Later chars K c [] (inr h) = absurd h
Accepted-Later chars K c (d ∷ s) (inr h) = inr (Accepted-Later chars K d s h)

literal-Later :
    (x : ℕ) (literal : List ℕ) (K : List ℕ → Type 0) (c : ℕ) (s : List ℕ)
    → Later (Literally (x ∷ literal) K) (c ∷ s)
    → Later (Literally literal K) s
literal-Later x literal K c s (inl (e, h)) = Later-here (Literally literal K) s h
literal-Later x literal K c [] (inr h) = absurd h
literal-Later x literal K c (d ∷ s) (inr h) = inr (literal-Later x literal K d s h)

-- The same for a literal that stands here.
pub Literally-Later :
    (literal : List ℕ) (K : List ℕ → Type 0) (s rest : List ℕ)
    → strip_prefix literal s ≡ some rest
    → Later (Literally literal K) s
    → Later K rest
unfolding strip_prefix
Literally-Later [] K s rest e h = subst (Later K) (some_inj e) h
Literally-Later (x ∷ literal) K [] rest e h = cc
Literally-Later (x ∷ literal) K (c ∷ s) rest e h = elim (Bool-cases (x == c)) [
  | inl same ↦ Literally-Later literal K s rest (rw same at e) (literal-Later x literal K c s h)
  | inr other ↦ absurd (ground arith)
]

pub strip_prefix-Literally :
    (literal : List ℕ) (K : List ℕ → Type 0) (s rest : List ℕ)
    → strip_prefix literal s ≡ some rest
    → K rest ↔ Literally literal K s
unfolding strip_prefix
strip_prefix-Literally [] K s rest e =
    (λ h. subst K (sym (some_inj e)) h, λ h. subst K (some_inj e) h)
strip_prefix-Literally (x ∷ literal) K [] rest e = cc
strip_prefix-Literally (x ∷ literal) K (c ∷ s) rest e = elim (Bool-cases (x == c)) [
  | inl same ↦
      let (into, out) = strip_prefix-Literally literal K s rest (rw same at e) in
      (λ h. ((==_iff x c).0 same, into h), λ h. out h.1)
  | inr other ↦ absurd (ground arith)
]

pub strip_prefix-none :
    (literal : List ℕ) (K : List ℕ → Type 0) (s : List ℕ)
    → strip_prefix literal s ≡ none
    → ¬ Literally literal K s
unfolding strip_prefix
strip_prefix-none [] K s e = absurd (ground arith)
strip_prefix-none (x ∷ literal) K [] e = λ h. h
strip_prefix-none (x ∷ literal) K (c ∷ s) e = elim (Bool-cases (x == c)) [
  | inl same ↦ let deeper = strip_prefix-none literal K s (rw same at e) in λ h. deeper h.1
  | inr other ↦ λ h. ground (arith, h.0)
]
