-- ===== src/Util/Glob/WellFormed.antt =====
-- The patterns that compile, and that a round for each byte is enough.
use mold_macho.Prelude.{
  ◌≢◌, zero, ◌∷◌, some, Bool-cases, arith, [], length, none, false, inr, suc, List, ◌≤◌, ℕ, ◌∙◌,
  sym, ==_iff, ◌++◌, length-append, ◌+◌, inl, refl, ◌==◌, ◌≡◌, ap,
}
use mold_macho.Prelude.Fallible.{>>=-eq-some}
use mold_macho.Util.Glob.{
  Chars, push_char, Token, push_star, bracket, compile_loop, question, read_bracket,
}
use mold_macho.Util.Glob.Bracket.{
  Unclosed, IsExpr-read_bracket, ne_of_test, read_bracket-some, IsExpr, differs,
}

-- A well-formed pattern: each `[` begins a bracket expression, which ends at the first `]`.
pub data IsPattern : List ℕ → Type 0 where
  finished : IsPattern []
  simple : {c : ℕ} {pat : List ℕ} → c ≢ 0x5b → c ≢ 0x5c → IsPattern pat → IsPattern (c ∷ pat)
  escape : {q c : ℕ} {pat : List ℕ} → q ≡ 0x5c → IsPattern pat → IsPattern (q ∷ c ∷ pat)
  last_escape : {q : ℕ} → q ≡ 0x5c → IsPattern (q ∷ [])
  bracketed :
      {q : ℕ} {pat expr rest : List ℕ}
      → q ≡ 0x5b
      → pat ≡ expr ++ 0x5d ∷ rest
      → Unclosed expr
      → IsExpr none expr
      → IsPattern rest
      → IsPattern (q ∷ pat)

-- What compiles is well formed.
pub compile_loop-IsPattern :
    (fuel : ℕ) (tokens : List Token) (pat : List ℕ) (result : List Token)
    → compile_loop fuel tokens pat ≡ some result
    → IsPattern pat
unfolding compile_loop
compile_loop-IsPattern fuel tokens [] result e = finished
compile_loop-IsPattern zero tokens (c ∷ pat) result e = cc
compile_loop-IsPattern (suc fuel) tokens (c ∷ []) result e = elim (Bool-cases (c == 0x5b)) [
  | inl open_c ↦ absurd (ground arith)
  | inr not_open ↦ elim (Bool-cases (c == 0x5c)) [
    | inl escape_c ↦ last_escape ((==_iff c 0x5c).0 escape_c)
    | inr not_escape ↦ simple (ne_of_test c 0x5b not_open) (ne_of_test c 0x5c not_escape) finished
  ]
]
compile_loop-IsPattern (suc fuel) tokens (c ∷ next ∷ pat) result e = elim (Bool-cases (c == 0x5b)) [
  | inl open_c ↦
      let ((chars, rest), read, e') = >>=-eq-some (read_bracket (next ∷ pat)) _ (rw open_c at e) in
      let (expr, whole, unclosed, good, made) = read_bracket-some (next ∷ pat) rest chars read in
      bracketed ((==_iff c 0x5b).0 open_c) whole unclosed good
        (compile_loop-IsPattern fuel (tokens ++ bracket chars ∷ []) rest result e')
  | inr not_open ↦ elim (Bool-cases (c == 0x5c)) [
    | inl escape_c ↦
        let is_escape = (==_iff c 0x5c).0 escape_c in
        let not_any : (c == 0x3f) ≡ false = ground arith in
        let not_many : (c == 0x2a) ≡ false = ground arith in
        escape is_escape (
          compile_loop-IsPattern fuel (push_char tokens next) pat result
            (rw (not_open, not_any, not_many, escape_c) at e))
    | inr not_escape ↦
        simple (ne_of_test c 0x5b not_open) (ne_of_test c 0x5c not_escape)
          (elim (Bool-cases (c == 0x3f)) [
            | inl any_c ↦
                compile_loop-IsPattern fuel (tokens ++ question ∷ []) (next ∷ pat) result
                  (rw (not_open, any_c) at e)
            | inr not_any ↦ elim (Bool-cases (c == 0x2a)) [
              | inl many_c ↦
                  compile_loop-IsPattern fuel (push_star tokens) (next ∷ pat) result
                    (rw (not_open, not_any, many_c) at e)
              | inr not_many ↦
                  compile_loop-IsPattern fuel (push_char tokens c) (next ∷ pat) result
                    (rw (not_open, not_any, not_many, not_escape) at e)
            ]
          ])
  ]
]

-- With a round for each byte, a well-formed pattern compiles.
abbrev pub Compiles : ℕ → List Token → List ℕ → Type 0
Compiles fuel tokens pat = (result : List Token) × (compile_loop fuel tokens pat ≡ some result)

Compiles-simple :
    (fuel : ℕ) (c : ℕ) (pat : List ℕ)
    → c ≢ 0x5b
    → c ≢ 0x5c
    → ((tokens : List Token) → Compiles fuel tokens pat)
    → (tokens : List Token) → Compiles (suc fuel) tokens (c ∷ pat)
unfolding compile_loop
Compiles-simple fuel c [] n m rest tokens = elim (Bool-cases (c == 0x3f)) [
  | inl any_c ↦ (tokens ++ question ∷ [], rw (differs c 0x5b n, any_c) refl)
  | inr not_any ↦ elim (Bool-cases (c == 0x2a)) [
    | inl many_c ↦ (push_star tokens, rw (differs c 0x5b n, not_any, many_c) refl)
    | inr not_many ↦ (push_char tokens c, rw (differs c 0x5b n, not_any, not_many) refl)
  ]
]
Compiles-simple fuel c (next ∷ pat) n m rest tokens = elim (Bool-cases (c == 0x3f)) [
  | inl any_c ↦ let (r, e) = rest (tokens ++ question ∷ []) in (r, rw (differs c 0x5b n, any_c) e)
  | inr not_any ↦ elim (Bool-cases (c == 0x2a)) [
    | inl many_c ↦
        let (r, e) = rest (push_star tokens) in (r, rw (differs c 0x5b n, not_any, many_c) e)
    | inr not_many ↦
        let (r, e) = rest (push_char tokens c) in
        (r, rw (differs c 0x5b n, not_any, not_many, differs c 0x5c m) e)
  ]
]

Compiles-bracketed :
    (fuel : ℕ) (q : ℕ) (pat rest : List ℕ) (chars : Chars)
    → q ≡ 0x5b
    → read_bracket pat ≡ some (chars, rest)
    → ((tokens : List Token) → Compiles fuel tokens rest)
    → (tokens : List Token) → Compiles (suc fuel) tokens (q ∷ pat)
unfolding compile_loop
Compiles-bracketed fuel q [] rest chars e read go_on tokens =
    let (expr, whole, unclosed, good, made) = read_bracket-some [] rest chars read in
    let size : length (expr ++ 0x5d ∷ rest) ≡ 0 = ap length (sym whole) in
    absurd (omega (arith, length-append expr (0x5d ∷ rest)))
Compiles-bracketed fuel q (next ∷ pat) rest chars e read go_on tokens =
    let (r, built) = go_on (tokens ++ bracket chars ∷ []) in
    (r, rw ((==_iff q 0x5b).1 e, read) built)

pub IsPattern-Compiles :
    (fuel : ℕ) (pat : List ℕ)
    → IsPattern pat
    → length pat ≤ fuel
    → (tokens : List Token) → Compiles fuel tokens pat
unfolding compile_loop
IsPattern-Compiles fuel [] finished h tokens = (tokens, refl)
IsPattern-Compiles zero (c ∷ pat) p h tokens = absurd (omega arith)
IsPattern-Compiles (suc fuel) (c ∷ pat) (simple n m p) h tokens =
    Compiles-simple fuel c pat n m (IsPattern-Compiles fuel pat p (omega arith)) tokens
IsPattern-Compiles (suc fuel) (c ∷ next ∷ pat) (escape e p) h tokens =
    let (r, built) = IsPattern-Compiles fuel pat p (omega arith) (push_char tokens next) in
    let not_open : (c == 0x5b) ≡ false = ground arith in
    let not_any : (c == 0x3f) ≡ false = ground arith in
    let not_many : (c == 0x2a) ≡ false = ground arith in
    (r, rw (not_open, not_any, not_many, (==_iff c 0x5c).1 e) built)
IsPattern-Compiles (suc fuel) (c ∷ []) (last_escape e) h tokens =
    let not_open : (c == 0x5b) ≡ false = ground arith in
    let not_any : (c == 0x3f) ≡ false = ground arith in
    let not_many : (c == 0x2a) ≡ false = ground arith in
    (push_char tokens c, rw (not_open, not_any, not_many) refl)
IsPattern-Compiles (suc fuel) (c ∷ pat)
      (bracketed {expr = expr} {rest = rest} e whole unclosed good p) h tokens =
    let (chars, read, made) = IsExpr-read_bracket expr rest unclosed good in
    let size : length pat ≡ length expr + suc (length rest) =
      ap length whole ∙ length-append expr (0x5d ∷ rest) in
    Compiles-bracketed fuel c pat rest chars e (ap read_bracket whole ∙ read)
      (IsPattern-Compiles fuel rest p (omega arith)) tokens
