-- ===== src/Util/Glob/Bracket.antt =====
-- Which bracket expressions are well formed, and where one ends.
use mathlib.Core.Path.{subst}
use mold_macho.Prelude.{
  ◌∷◌, false, Bool-cases, ◌++◌, arith, refl, ℕ, List, inl, ◌==◌, Option, none, ==_iff, some, ap, [],
  inr, ◌≢◌, ◌≡◌,
}
use mold_macho.Prelude.Bytes.{All}
use mold_macho.Prelude.Fallible.{>>=-eq-some, some_inj}
use mold_macho.Util.Glob.{Chars, set_range, bracket_chars, bracket_loop, read_bracket, split_class}
use mold_macho.Util.Glob.Search.{other}

-- A bracket expression after the byte `prev`: a `-` makes a range of the byte before it and the one
-- after it, so it stands neither first nor last.
pub data IsExpr : Option ℕ → List ℕ → Type 0 where
  complete : {prev : Option ℕ} → IsExpr prev []
  stands :
      {prev : Option ℕ} {c : ℕ} {expr : List ℕ}
      → c ≢ 0x2d
      → IsExpr (some c) expr
      → IsExpr prev (c ∷ expr)
  ranged :
      {q start end : ℕ} {expr : List ℕ}
      → q ≡ 0x2d
      → IsExpr (some q) expr
      → IsExpr (some start) (q ∷ end ∷ expr)

-- No byte of it is the `]` that ends a bracket expression.
abbrev pub Unclosed : List ℕ → Type 0
Unclosed expr = All (λ c. c ≢ 0x5d) expr

bracket_loop-IsExpr :
    (chars : Chars) (prev : Option ℕ) (expr : List ℕ) (result : Chars)
    → bracket_loop chars prev expr ≡ some result
    → IsExpr prev expr
unfolding bracket_loop
bracket_loop-IsExpr chars prev [] result e = complete
bracket_loop-IsExpr chars prev (c ∷ []) result e = elim (Bool-cases (c == 0x2d)) [
  | inl dash ↦ absurd (ground arith)
  | inr other ↦ stands (λ e. ground arith) complete
]
bracket_loop-IsExpr chars none (c ∷ end ∷ expr) result e = elim (Bool-cases (c == 0x2d)) [
  | inl dash ↦ absurd (ground arith)
  | inr other ↦
      stands (λ e. ground arith)
        (bracket_loop-IsExpr (set_range chars c c) (some c) (end ∷ expr) result (rw other at e))
]
bracket_loop-IsExpr chars (some start) (c ∷ end ∷ expr) result e = elim (Bool-cases (c == 0x2d)) [
  | inl dash ↦
      ranged ((==_iff c 0x2d).0 dash)
        (bracket_loop-IsExpr (set_range chars start end) (some c) expr result (rw dash at e))
  | inr other ↦
      stands (λ e. ground arith)
        (bracket_loop-IsExpr (set_range chars c c) (some c) (end ∷ expr) result (rw other at e))
]

pub differs : (c k : ℕ) → c ≢ k → (c == k) ≡ false
differs c k n = ground (arith, n)

IsExpr-bracket_loop :
    (chars : Chars) (prev : Option ℕ) (expr : List ℕ)
    → IsExpr prev expr
    → (result : Chars) × (bracket_loop chars prev expr ≡ some result)
unfolding bracket_loop
IsExpr-bracket_loop chars prev [] complete = (chars, refl)
IsExpr-bracket_loop chars prev (c ∷ []) (stands n h) =
    (set_range chars c c, rw (differs c 0x2d n) refl)
IsExpr-bracket_loop chars none (c ∷ end ∷ expr) (stands n h) =
    rw (differs c 0x2d n) (IsExpr-bracket_loop (set_range chars c c) (some c) (end ∷ expr) h)
IsExpr-bracket_loop chars (some start) (c ∷ end ∷ expr) (stands n h) =
    rw (differs c 0x2d n) (IsExpr-bracket_loop (set_range chars c c) (some c) (end ∷ expr) h)
IsExpr-bracket_loop chars (some start) (c ∷ end ∷ expr) (ranged e h) =
    rw ((==_iff c 0x2d).1 e) (IsExpr-bracket_loop (set_range chars start end) (some c) expr h)

split_class-some :
    (pat expr rest : List ℕ)
    → split_class pat ≡ some (expr, rest)
    → (pat ≡ expr ++ 0x5d ∷ rest) × Unclosed expr
unfolding split_class
split_class-some [] expr rest e = cc
split_class-some (c ∷ pat) expr rest e = elim (Bool-cases (c == 0x5d)) [
  | inl closes ↦
      let same : ◌≡◌ {A = List ℕ × List ℕ} ([], pat) (expr, rest) = some_inj (rw closes at e) in
      let ec : c ≡ 0x5d = (==_iff c 0x5d).0 closes in
      subst (λ (r : List ℕ × List ℕ). (c ∷ pat ≡ r.0 ++ 0x5d ∷ r.1) × Unclosed r.0) same
        (ap (λ (k : ℕ). k ∷ pat) ec, tt)
  | inr other ↦
      let ((expr', rest'), split, e') = >>=-eq-some (split_class pat) _ (rw other at e) in
      let (whole, unclosed) = split_class-some pat expr' rest' split in
      subst (λ (r : List ℕ × List ℕ). (c ∷ pat ≡ r.0 ++ 0x5d ∷ r.1) × Unclosed r.0) (some_inj e')
        (ap (λ (l : List ℕ). c ∷ l) whole, ((λ ec. ground arith), unclosed))
]

split_class-first :
    (expr rest : List ℕ) → Unclosed expr → split_class (expr ++ 0x5d ∷ rest) ≡ some (expr, rest)
unfolding split_class
split_class-first [] rest h = refl
split_class-first (c ∷ expr) rest (n, h) = rw (differs c 0x5d n, split_class-first expr rest h) refl

-- A class that is read: the expression up to the first `]`.
pub read_bracket-some :
    (pat rest : List ℕ) (chars : Chars)
    → read_bracket pat ≡ some (chars, rest)
    → (expr : List ℕ) × (pat ≡ expr ++ 0x5d ∷ rest)
      × Unclosed expr
      × IsExpr none expr
      × (bracket_chars expr ≡ some chars)
unfolding read_bracket bracket_chars
read_bracket-some pat rest chars e =
    let ((expr, rest'), split, e') = >>=-eq-some (split_class pat) _ e in
    let (found, made, e'') = >>=-eq-some (bracket_loop (λ x. false) none expr) _ e' in
    let (whole, unclosed) = split_class-some pat expr rest' split in
    let same : ◌≡◌ {A = Chars × List ℕ} (found, rest') (chars, rest) = some_inj e'' in
    (
      expr,
      subst (λ (r : Chars × List ℕ). pat ≡ expr ++ 0x5d ∷ r.1) same whole,
      unclosed,
      bracket_loop-IsExpr (λ x. false) none expr found made,
      subst (λ (r : Chars × List ℕ). bracket_loop (λ x. false) none expr ≡ some r.0) same made,
    )

pub IsExpr-read_bracket :
    (expr rest : List ℕ)
    → Unclosed expr
    → IsExpr none expr
    → (chars : Chars) × (read_bracket (expr ++ 0x5d ∷ rest) ≡ some (chars, rest))
      × (bracket_chars expr ≡ some chars)
unfolding read_bracket bracket_chars
IsExpr-read_bracket expr rest unclosed h =
    let (chars, made) = IsExpr-bracket_loop (λ x. false) none expr h in
    (chars, rw (split_class-first expr rest unclosed, made) refl, made)

pub ne_of_test : (c k : ℕ) → (c == k) ≡ false → c ≢ k
ne_of_test c k h = λ e. ground arith
