-- ===== src/Util/Glob/Class.antt =====
-- What a bracket expression matches.
use mathlib.Core.Path.{subst}
use mold_macho.Prelude.{
  [], ◌≤◌, some, true, false, ◌∷◌, inl, ◌↔◌, inr, ℕ, none, ◌==◌, ◌⊎◌, ◌≢◌, arith, ◌≡◌, List, Option,
  Bool-cases, sym, ==_iff, refl,
}
use mold_macho.Prelude.Fallible.{some_inj}
use mold_macho.Util.Glob.{bracket_loop, set_range, Chars, bracket_chars}
use mold_macho.Util.Glob.Search.{other}

-- A byte in a class: one that stands there, or one of a range, which a `-` makes of the byte before
-- it and the one after it. After a range, the byte before is that `-`.
pub data InClass : Option ℕ → List ℕ → ℕ → Type 0 where
  single : {prev : Option ℕ} {c : ℕ} {expr : List ℕ} → c ≢ 0x2d → InClass prev (c ∷ expr) c
  range :
      {q start end x : ℕ} {expr : List ℕ}
      → q ≡ 0x2d
      → start ≤ x
      → x ≤ end
      → InClass (some start) (q ∷ end ∷ expr) x
  behind :
      {prev : Option ℕ} {c x : ℕ} {expr : List ℕ}
      → c ≢ 0x2d
      → InClass (some c) expr x
      → InClass prev (c ∷ expr) x
  behind_range :
      {q start end x : ℕ} {expr : List ℕ}
      → q ≡ 0x2d
      → InClass (some q) expr x
      → InClass (some start) (q ∷ end ∷ expr) x

test_ne : (c k : ℕ) → (c == k) ≡ false → c ≢ k
test_ne c k h = λ e. ground arith

set_one : (chars : Chars) (c x : ℕ) → set_range chars c c x ≡ true → (chars x ≡ true) ⊎ (c ≡ x)
set_one chars c x h = ground arith

set_some :
    (chars : Chars) (lo hi x : ℕ)
    → set_range chars lo hi x ≡ true
    → (chars x ≡ true) ⊎ ((lo ≤ x) × (x ≤ hi))
set_some chars lo hi x h = ground arith

set_in : (chars : Chars) (lo hi x : ℕ) → lo ≤ x → x ≤ hi → set_range chars lo hi x ≡ true
set_in chars lo hi x l h = ground arith

set_old : (chars : Chars) (lo hi x : ℕ) → chars x ≡ true → set_range chars lo hi x ≡ true
set_old chars lo hi x h = ground arith

-- Everything found before or still to come.
Either : Chars → Option ℕ → List ℕ → ℕ → Type 0
Either chars prev expr x = (chars x ≡ true) ⊎ InClass prev expr x

found_in :
    (chars : Chars) (prev : Option ℕ) (c x : ℕ) (expr : List ℕ)
    → c ≢ 0x2d
    → InClass prev (c ∷ expr) x
    → Either (set_range chars c c) (some c) expr x
unfolding Either
found_in chars prev c x expr n (single n') = inl (set_in chars c c c (omega arith) (omega arith))
found_in chars prev c x expr n (range q l h) = absurd (n q)
found_in chars prev c x expr n (behind n' h) = inr h
found_in chars prev c x expr n (behind_range q h) = absurd (n q)

range_in :
    (chars : Chars) (q start end x : ℕ) (expr : List ℕ)
    → q ≡ 0x2d
    → InClass (some start) (q ∷ end ∷ expr) x
    → Either (set_range chars start end) (some q) expr x
unfolding Either
range_in chars q start end x expr e (single n) = absurd (n e)
range_in chars q start end x expr e (range q' l h) = inl (set_in chars start end x l h)
range_in chars q start end x expr e (behind n h) = absurd (n e)
range_in chars q start end x expr e (behind_range q' h) = inr h

single_step :
    (chars : Chars) (prev : Option ℕ) (c x : ℕ) (expr : List ℕ)
    → c ≢ 0x2d
    → Either (set_range chars c c) (some c) expr x ↔ Either chars prev (c ∷ expr) x
unfolding Either
single_step chars prev c x expr n = (into, out)
  where
    into : Either (set_range chars c c) (some c) expr x → Either chars prev (c ∷ expr) x
    into (inl h) = elim (set_one chars c x h) [
      | inl old ↦ inl old
      | inr e ↦ inr (subst (λ (y : ℕ). InClass prev (c ∷ expr) y) e (single n))
    ]
    into (inr h) = inr (behind n h)

    out : Either chars prev (c ∷ expr) x → Either (set_range chars c c) (some c) expr x
    out (inl h) = inl (set_old chars c c x h)
    out (inr h) = found_in chars prev c x expr n h

range_step :
    (chars : Chars) (q start end x : ℕ) (expr : List ℕ)
    → q ≡ 0x2d
    → Either (set_range chars start end) (some q) expr x
      ↔ Either chars (some start) (q ∷ end ∷ expr) x
unfolding Either
range_step chars q start end x expr e = (into, out)
  where
    into :
        Either (set_range chars start end) (some q) expr x
        → Either chars (some start) (q ∷ end ∷ expr) x
    into (inl h) = elim (set_some chars start end x h) [
      | inl old ↦ inl old
      | inr (l, g) ↦ inr (range e l g)
    ]
    into (inr h) = inr (behind_range e h)

    out :
        Either chars (some start) (q ∷ end ∷ expr) x
        → Either (set_range chars start end) (some q) expr x
    out (inl h) = inl (set_old chars start end x h)
    out (inr h) = range_in chars q start end x expr e h

via : {A B C : Type 0} → A ↔ B → B ↔ C → A ↔ C
via f g = (λ a. g.0 (f.0 a), λ c. f.1 (g.1 c))

no_member : (prev : Option ℕ) (expr : List ℕ) (x : ℕ) → InClass prev expr x → expr ≢ []
no_member prev expr x (single n) = λ e. cc
no_member prev expr x (range q l h) = λ e. cc
no_member prev expr x (behind n h) = λ e. cc
no_member prev expr x (behind_range q h) = λ e. cc

nothing_left :
    (chars result : Chars) (prev : Option ℕ) (x : ℕ)
    → some chars ≡ some result
    → (result x ≡ true) ↔ Either chars prev [] x
unfolding Either
nothing_left chars result prev x e = (into, out)
  where
    same : chars ≡ result
    same = some_inj e

    into : result x ≡ true → Either chars prev [] x
    into h = inl (subst (λ (r : Chars). r x ≡ true) (sym same) h)

    out : Either chars prev [] x → result x ≡ true
    out (inl h) = subst (λ (r : Chars). r x ≡ true) same h
    out (inr h) = absurd (no_member prev [] x h refl)

bracket_loop-InClass :
    (chars : Chars) (prev : Option ℕ) (expr : List ℕ) (result : Chars) (x : ℕ)
    → bracket_loop chars prev expr ≡ some result
    → (result x ≡ true) ↔ Either chars prev expr x
unfolding bracket_loop
bracket_loop-InClass chars prev [] result x e = nothing_left chars result prev x e
bracket_loop-InClass chars prev (c ∷ []) result x e = elim (Bool-cases (c == 0x2d)) [
  | inl dash ↦ absurd (ground arith)
  | inr other ↦
      via (nothing_left (set_range chars c c) result (some c) x (rw other at e))
        (single_step chars prev c x [] (test_ne c 0x2d other))
]
bracket_loop-InClass chars none (c ∷ end ∷ expr) result x e = elim (Bool-cases (c == 0x2d)) [
  | inl dash ↦ absurd (ground arith)
  | inr other ↦
      via
        (bracket_loop-InClass (set_range chars c c) (some c) (end ∷ expr) result x (rw other at e))
        (single_step chars none c x (end ∷ expr) (test_ne c 0x2d other))
]
bracket_loop-InClass chars (some start) (c ∷ end ∷ expr) result x e =
    elim (Bool-cases (c == 0x2d)) [
      | inl dash ↦
          via
            (bracket_loop-InClass (set_range chars start end) (some c) expr result x (rw dash at e))
            (range_step chars c start end x expr ((==_iff c 0x2d).0 dash))
      | inr other ↦
          via
            (bracket_loop-InClass (set_range chars c c) (some c) (end ∷ expr) result x
              (rw other at e))
            (single_step chars (some start) c x (end ∷ expr) (test_ne c 0x2d other))
    ]

-- A bracket expression that is not malformed matches exactly the bytes that stand in it and those
-- of its ranges.
pub bracket_chars-InClass :
    (expr : List ℕ) (chars : Chars) (x : ℕ)
    → bracket_chars expr ≡ some chars
    → (chars x ≡ true) ↔ InClass none expr x
unfolding bracket_chars Either
bracket_chars-InClass expr chars x e =
    let (into, out) = bracket_loop-InClass (λ c. false) none expr chars x e in
    (λ h. elim (into h) [ inl bad ↦ cc | inr found ↦ found ], λ h. out (inr h))
