-- ===== src/Thunks/Span/Range.antt =====
-- The code chunks of macho/thunks.rs's code_range, and how chunks are placed.
use mathlib.Core.Path.{subst}
use mold_macho.Prelude.{
  ◌≤◌, [], ◌≡◌, ◌∷◌, ◌+◌, true, ◌-◌, false, inr, List, Bool-cases, ℕ, arith, ◌^◌, inl, some, ◌<◌,
  none, sym, if◌then◌else◌, Bool, suc, drop, take, ap, ◌∙◌, Option-cases, zero,
}
use mold_macho.Prelude.Bytes.{All}
use mold_macho.Prelude.Fallible.{some_inj, ◌>>=◌, >>=-eq-some}
use mold_macho.Thunks.Span.{Chunk, is_code, first_code, last_code, last_of}

-- A chunk is placed where its alignment lets it begin after the one before it.
abbrev pub Follows : Chunk → Chunk → Type 0
Follows hdr next =
    (hdr.addr + hdr.size ≤ next.addr) × (next.addr < hdr.addr + hdr.size + 2 ^ next.p2align)

-- The chunks of the segment that stand one after the other are placed so.
abbrev pub ArePlaced : List ℕ → List Chunk → Type 0
ArePlaced segname [] = Unit
ArePlaced segname (hdr ∷ []) = Unit
ArePlaced segname (hdr ∷ next ∷ chunks) =
    (hdr.segname ≡ segname → next.segname ≡ segname → Follows hdr next)
    × ArePlaced segname (next ∷ chunks)

-- Every code chunk lies between two addresses.
abbrev pub Between : ℕ → ℕ → Chunk → Type 0
Between low high hdr = is_code hdr ≡ true → (low ≤ hdr.addr) × (hdr.addr + hdr.size ≤ high)

-- No chunk before the first code chunk is code, nor is one after the last.
pub first_code-drop :
    (chunks : List Chunk) (first low high : ℕ)
    → first_code chunks ≡ some first
    → All (Between low high) (drop first chunks)
    → All (Between low high) chunks
unfolding first_code
first_code-drop [] first low high h all = tt
first_code-drop (hdr ∷ chunks) first low high h all = elim (Bool-cases (is_code hdr)) [
  | inl code ↦
      let e : some 0 ≡ some first =
        subst
          (λ (b : Bool).
            (if b then some 0 else (first_code chunks >>= (λ i. some (suc i)))) ≡ some first)
          code h in
      subst (λ n. All (Between low high) (drop n (hdr ∷ chunks))) (sym (some_inj e)) all
  | inr plain ↦
      let e : (first_code chunks >>= (λ i. some (suc i))) ≡ some first =
        subst
          (λ (b : Bool).
            (if b then some 0 else (first_code chunks >>= (λ i. some (suc i)))) ≡ some first)
          plain h in
      let (i, e', same) = >>=-eq-some (first_code chunks) (λ i. some (suc i)) e in
      (
        λ code. absurd (ground arith),
        first_code-drop chunks i low high e'
            (subst (λ n. All (Between low high) (drop n (hdr ∷ chunks))) (sym (some_inj same)) all),
      )
]

pub none_last :
    (chunks : List Chunk) (low high : ℕ) → last_code chunks ≡ none → All (Between low high) chunks
unfolding last_code
none_last [] low high h = tt
none_last (hdr ∷ chunks) low high h = elim (Option-cases (last_code chunks)) [
  | inr (i, e) ↦
      let h' : some (suc i) ≡ none = subst (λ o. last_of o (is_code hdr) ≡ none) e h in absurd cc
  | inl e ↦ elim (Bool-cases (is_code hdr)) [
    | inl code ↦
        let h' : last_of none true ≡ none =
          subst (λ b. last_of none b ≡ none) code
            (subst (λ o. last_of o (is_code hdr) ≡ none) e h) in
        absurd cc
    | inr plain ↦ (λ code. absurd (ground arith), none_last chunks low high e)
  ]
]

pub last_code-take :
    (chunks : List Chunk) (last low high : ℕ)
    → last_code chunks ≡ some last
    → All (Between low high) (take (suc last) chunks)
    → All (Between low high) chunks
unfolding last_code
last_code-take [] last low high h all = tt
last_code-take (hdr ∷ chunks) last low high h all = elim (Option-cases (last_code chunks)) [
  | inr (i, e) ↦
      let h' : some (suc i) ≡ some last = subst (λ o. last_of o (is_code hdr) ≡ some last) e h in
      let all' : All (Between low high) (take (suc (suc i)) (hdr ∷ chunks)) =
        subst (λ n. All (Between low high) (take (suc n) (hdr ∷ chunks))) (sym (some_inj h')) all in
      (all'.0, last_code-take chunks i low high e all'.1)
  | inl e ↦ (all.0, none_last chunks low high e)
]

pub last_later :
    (hdr : Chunk) (chunks : List Chunk) (last : ℕ)
    → is_code hdr ≡ false
    → last_code (hdr ∷ chunks) ≡ some last
    → (j : ℕ) × (last_code chunks ≡ some j) × (suc j ≡ last)
unfolding last_code
last_later hdr chunks last plain k = elim (Option-cases (last_code chunks)) [
  | inr (j, e) ↦ (j, e, some_inj (subst (λ o. last_of o (is_code hdr) ≡ some last) e k))
  | inl e ↦
      let k' : last_of none false ≡ some last =
        subst (λ b. last_of none b ≡ some last) plain
          (subst (λ o. last_of o (is_code hdr) ≡ some last) e k) in
      absurd cc
]

pub last_code-drop :
    (chunks : List Chunk) (first last : ℕ)
    → first_code chunks ≡ some first
    → last_code chunks ≡ some last
    → (first ≤ last) × (last_code (drop first chunks) ≡ some (last - first))
unfolding first_code
last_code-drop [] first last h k = let e : none ≡ some first = h in absurd cc
last_code-drop (hdr ∷ chunks) first last h k = elim (Bool-cases (is_code hdr)) [
  | inl code ↦
      let e : some 0 ≡ some first =
        subst
          (λ (b : Bool).
            (if b then some 0 else (first_code chunks >>= (λ i. some (suc i)))) ≡ some first)
          code h in
      let e' : last - 0 ≡ last = omega arith in
      subst (λ n. (n ≤ last) × (last_code (drop n (hdr ∷ chunks)) ≡ some (last - n))) (some_inj e)
        (omega arith, k ∙ ap some (sym e'))
  | inr plain ↦
      let e : (first_code chunks >>= (λ i. some (suc i))) ≡ some first =
        subst
          (λ (b : Bool).
            (if b then some 0 else (first_code chunks >>= (λ i. some (suc i)))) ≡ some first)
          plain h in
      let (i, e', same) = >>=-eq-some (first_code chunks) (λ i. some (suc i)) e in
      let (j, e'', same') = last_later hdr chunks last plain k in
      let (le, rest) = last_code-drop chunks i j e' e'' in
      let d : j - i ≡ last - suc i = omega arith in
      subst (λ n. (n ≤ last) × (last_code (drop n (hdr ∷ chunks)) ≡ some (last - n)))
        (some_inj same) (omega arith, rest ∙ ap some d)
]

pub drop-ArePlaced :
    (n : ℕ) (segname : List ℕ) (chunks : List Chunk)
    → ArePlaced segname chunks
    → ArePlaced segname (drop n chunks)
drop-ArePlaced zero segname chunks h = h
drop-ArePlaced (suc n) segname [] h = tt
drop-ArePlaced (suc n) segname (hdr ∷ []) h = drop-ArePlaced n segname [] tt
drop-ArePlaced (suc n) segname (hdr ∷ next ∷ chunks) (f, h) =
    drop-ArePlaced n segname (next ∷ chunks) h

pub take-ArePlaced :
    (n : ℕ) (segname : List ℕ) (chunks : List Chunk)
    → ArePlaced segname chunks
    → ArePlaced segname (take n chunks)
take-ArePlaced zero segname chunks h = tt
take-ArePlaced (suc n) segname [] h = tt
take-ArePlaced (suc zero) segname (hdr ∷ chunks) h = tt
take-ArePlaced (suc (suc n)) segname (hdr ∷ []) h = tt
take-ArePlaced (suc (suc n)) segname (hdr ∷ next ∷ chunks) (f, h) =
    (f, take-ArePlaced (suc n) segname (next ∷ chunks) h)

pub none_first :
    (chunks : List Chunk) (low high : ℕ) → first_code chunks ≡ none → All (Between low high) chunks
unfolding first_code
none_first [] low high h = tt
none_first (hdr ∷ chunks) low high h = elim (Bool-cases (is_code hdr)) [
  | inl code ↦
      let e : some 0 ≡ none =
        subst
          (λ (b : Bool). (if b then some 0 else (first_code chunks >>= (λ i. some (suc i)))) ≡ none)
          code h in
      absurd cc
  | inr plain ↦
      let e : (first_code chunks >>= (λ i. some (suc i))) ≡ none =
        subst
          (λ (b : Bool). (if b then some 0 else (first_code chunks >>= (λ i. some (suc i)))) ≡ none)
          plain h in
      (
        λ code. absurd (ground arith),
        none_first chunks low high (elim (Option-cases (first_code chunks)) [
          | inl e' ↦ e'
          | inr (i, e') ↦
              let bad : some (suc i) ≡ none =
                subst (λ o. (o >>= (λ i. some (suc i))) ≡ none) e' e in
              absurd cc
        ]),
      )
]
