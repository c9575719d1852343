-- ===== src/Util/Glob/Pattern.antt =====
-- What a pattern means, byte by byte, and what the tokens pushed for it match.
use mathlib.Core.Path.{subst}
use mold_macho.Prelude.{
  some, ◌≡◌, arith, refl, ◌++◌, List, ℕ, [], ◌≢◌, true, ◌↔◌, ◌∷◌, inl, ◌∙◌, inr, sym, ℕ_discrete,
  none, ap,
}
use mold_macho.Prelude.Fallible.{some_inj}
use mold_macho.Util.Glob.{
  Token, str, star, question, bracket, push_star, push_char, read_bracket, Chars,
}
use mold_macho.Util.Glob.Bracket.{Unclosed, IsExpr-read_bracket, IsExpr, read_bracket-some}
use mold_macho.Util.Glob.Class.{InClass, bracket_chars-InClass}
use mold_macho.Util.Glob.Meaning.{
  Later-here, Accepted, Later, Later-map, Literally, Match, Later-flat, Accepted-map, IsEnd,
  Literally-map,
}

-- A byte that stands for itself.
abbrev pub IsPlain : ℕ → Type 0
IsPlain c = (c ≢ 0x5b) × (c ≢ 0x3f) × (c ≢ 0x2a) × (c ≢ 0x5c)

-- The pattern (on the left) matches the whole text.
pub data Means : List ℕ → List ℕ → Type 0 where
  done : Means [] []
  plain : {c : ℕ} {pat s : List ℕ} → IsPlain c → Means pat s → Means (c ∷ pat) (c ∷ s)
  any : {q c : ℕ} {pat s : List ℕ} → q ≡ 0x3f → Means pat s → Means (q ∷ pat) (c ∷ s)
  stop : {q : ℕ} {pat s : List ℕ} → q ≡ 0x2a → Means pat s → Means (q ∷ pat) s
  more : {q c : ℕ} {pat s : List ℕ} → q ≡ 0x2a → Means (q ∷ pat) s → Means (q ∷ pat) (c ∷ s)
  escaped : {q c : ℕ} {pat s : List ℕ} → q ≡ 0x5c → Means pat s → Means (q ∷ c ∷ pat) (c ∷ s)
  backslash : {q : ℕ} → q ≡ 0x5c → Means (q ∷ []) (q ∷ [])
  class :
      {q c : ℕ} {pat expr rest s : List ℕ}
      → q ≡ 0x5b
      → pat ≡ expr ++ 0x5d ∷ rest
      → Unclosed expr
      → IsExpr none expr
      → InClass none expr c
      → Means rest s
      → Means (q ∷ pat) (c ∷ s)

-- The same texts.
abbrev pub Same : (List ℕ → Type 0) → (List ℕ → Type 0) → Type 0
Same K L = (s : List ℕ) → K s ↔ L s

pub Same-trans : (K L M : List ℕ → Type 0) → Same K L → Same L M → Same K M
Same-trans K L M f g s = (λ h. (g s).0 ((f s).0 h), λ h. (f s).1 ((g s).1 h))

-- Tokens that match the same texts do so behind a token.
Match-head :
    (token : Token) (tokens others : List Token) (K L : List ℕ → Type 0)
    → Same (Match tokens K) (Match others L)
    → Same (Match (token ∷ tokens) K) (Match (token ∷ others) L)
Match-head (str literal) tokens others K L f s = (
  Literally-map literal (Match tokens K) (Match others L) (λ u. (f u).0) s,
  Literally-map literal (Match others L) (Match tokens K) (λ u. (f u).1) s,
)
Match-head star tokens others K L f s = (
  Later-map (Match tokens K) (Match others L) (λ u. (f u).0) s,
  Later-map (Match others L) (Match tokens K) (λ u. (f u).1) s,
)
Match-head question tokens others K L f s = (
  Accepted-map (λ c. true) (Match tokens K) (Match others L) (λ u. (f u).0) s,
  Accepted-map (λ c. true) (Match others L) (Match tokens K) (λ u. (f u).1) s,
)
Match-head (bracket chars) tokens others K L f s = (
  Accepted-map chars (Match tokens K) (Match others L) (λ u. (f u).0) s,
  Accepted-map chars (Match others L) (Match tokens K) (λ u. (f u).1) s,
)

pub Match-Same :
    (tokens : List Token) (K L : List ℕ → Type 0)
    → Same K L
    → Same (Match tokens K) (Match tokens L)
Match-Same [] K L f s = f s
Match-Same (token ∷ tokens) K L f s = Match-head token tokens tokens K L (Match-Same tokens K L f) s

-- A last token, in the matches of what stands before it.
pub Match-append :
    (tokens last : List Token) (K : List ℕ → Type 0)
    → Same (Match (tokens ++ last) K) (Match tokens (Match last K))
Match-append [] last K s = (λ h. h, λ h. h)
Match-append (token ∷ tokens) last K s =
    Match-head token (tokens ++ last) tokens K (Match last K) (Match-append tokens last K) s

literal_append :
    (literal : List ℕ) (c : ℕ) (K : List ℕ → Type 0)
    → Same (Literally (literal ++ c ∷ []) K) (Literally literal (Literally (c ∷ []) K))
literal_append [] c K s = (λ h. h, λ h. h)
literal_append (x ∷ literal) c K [] = (λ h. h, λ h. h)
literal_append (x ∷ literal) c K (d ∷ s) =
    let f = literal_append literal c K s in (λ h. (h.0, f.0 h.1), λ h. (h.0, f.1 h.1))

pub push_char-Match :
    (tokens : List Token) (c : ℕ) (K : List ℕ → Type 0)
    → Same (Match (push_char tokens c) K) (Match tokens (Literally (c ∷ []) K))
unfolding push_char
push_char-Match [] c K s = (λ h. h, λ h. h)
push_char-Match (str literal ∷ []) c K s = literal_append literal c K s
push_char-Match (star ∷ []) c K s = (λ h. h, λ h. h)
push_char-Match (question ∷ []) c K s = (λ h. h, λ h. h)
push_char-Match (bracket chars ∷ []) c K s = (λ h. h, λ h. h)
push_char-Match (token ∷ next ∷ tokens) c K s =
    let f = push_char-Match (next ∷ tokens) c K in
    Match-head token (push_char (next ∷ tokens) c) (next ∷ tokens) K (Literally (c ∷ []) K) f s

pub push_star-Match :
    (tokens : List Token) (K : List ℕ → Type 0)
    → Same (Match (push_star tokens) K) (Match tokens (Later K))
unfolding push_star
push_star-Match [] K s = (λ h. h, λ h. h)
push_star-Match (str literal ∷ []) K s = (λ h. h, λ h. h)
push_star-Match (star ∷ []) K s = (Later-map K (Later K) (Later-here K) s, Later-flat K s)
push_star-Match (question ∷ []) K s = (λ h. h, λ h. h)
push_star-Match (bracket chars ∷ []) K s = (λ h. h, λ h. h)
push_star-Match (token ∷ next ∷ tokens) K s =
    Match-head token (push_star (next ∷ tokens)) (next ∷ tokens) K (Later K)
      (push_star-Match (next ∷ tokens) K) s

-- What each kind of byte means, in front of a pattern.
pub IsEnd-Means : Same IsEnd (Means [])
IsEnd-Means [] = (λ h. done, λ h. tt)
IsEnd-Means (c ∷ s) = (λ h. absurd h, λ h. elim h [ ])

pub any_in :
    (q : ℕ) (pat s : List ℕ) → q ≡ 0x3f → Accepted (λ c. true) (Means pat) s → Means (q ∷ pat) s
any_in q pat [] e h = absurd h
any_in q pat (c ∷ s) e h = any e h.1

pub any_out :
    (q : ℕ) (pat s : List ℕ) → q ≡ 0x3f → Means (q ∷ pat) s → Accepted (λ c. true) (Means pat) s
any_out q pat s e (plain p h) = absurd (p.1 e)
any_out q pat s e (any e' h) = (refl, h)
any_out q pat s e (stop e' h) = absurd (omega arith)
any_out q pat s e (more e' h) = absurd (omega arith)
any_out q pat s e (escaped e' h) = absurd (omega arith)
any_out q pat s e (backslash e') = absurd (omega arith)
any_out q pat s e (class e' w u x i h) = absurd (omega arith)

pub many_in : (q : ℕ) (pat s : List ℕ) → q ≡ 0x2a → Later (Means pat) s → Means (q ∷ pat) s
many_in q pat [] e h = stop e h
many_in q pat (c ∷ s) e (inl h) = stop e h
many_in q pat (c ∷ s) e (inr h) = more e (many_in q pat s e h)

pub many_out : (q : ℕ) (pat s : List ℕ) → q ≡ 0x2a → Means (q ∷ pat) s → Later (Means pat) s
many_out q pat s e (plain p h) = absurd (p.2 e)
many_out q pat s e (any e' h) = absurd (omega arith)
many_out q pat s e (stop e' h) = Later-here (Means pat) s h
many_out q pat (c ∷ s) e (more e' h) = inr (many_out q pat s e h)
many_out q pat s e (escaped e' h) = absurd (omega arith)
many_out q pat s e (backslash e') = absurd (omega arith)
many_out q pat s e (class e' w u x i h) = absurd (omega arith)

pub class_in :
    (q : ℕ) (pat rest s : List ℕ) (chars : Chars)
    → q ≡ 0x5b
    → read_bracket pat ≡ some (chars, rest)
    → Accepted chars (Means rest) s
    → Means (q ∷ pat) s
class_in q pat rest [] chars e r h = absurd h
class_in q pat rest (c ∷ s) chars e r (i, h) =
    let (expr, whole, unclosed, good, made) = read_bracket-some pat rest chars r in
    class e whole unclosed good ((bracket_chars-InClass expr chars c made).0 i) h

pub class_out :
    (q : ℕ) (pat rest s : List ℕ) (chars : Chars)
    → q ≡ 0x5b
    → read_bracket pat ≡ some (chars, rest)
    → Means (q ∷ pat) s
    → Accepted chars (Means rest) s
class_out q pat rest s chars e r (plain p h) = absurd (p.0 e)
class_out q pat rest s chars e r (any e' h) = absurd (omega arith)
class_out q pat rest s chars e r (stop e' h) = absurd (omega arith)
class_out q pat rest s chars e r (more e' h) = absurd (omega arith)
class_out q pat rest s chars e r (escaped e' h) = absurd (omega arith)
class_out q pat rest s chars e r (backslash e') = absurd (omega arith)
class_out q pat rest (c ∷ s) chars e r
      (class {expr = expr} {rest = rest'} e' whole unclosed good i h) =
    let (chars', read, made) = IsExpr-read_bracket expr rest' unclosed good in
    let same : (chars', rest') ≡ (chars, rest) =
      some_inj (sym read ∙ (ap read_bracket (sym whole) ∙ r)) in
    subst (λ (x : Chars × List ℕ). Accepted x.0 (Means x.1) (c ∷ s)) same
      ((bracket_chars-InClass expr chars' c made).1 i, h)

pub plain_in :
    (c : ℕ) (pat s : List ℕ) → IsPlain c → Literally (c ∷ []) (Means pat) s → Means (c ∷ pat) s
plain_in c pat [] p h = absurd h
plain_in c pat (d ∷ s) p (e, h) = rw (← e) (plain p h)

pub plain_out :
    (c : ℕ) (pat s : List ℕ) → IsPlain c → Means (c ∷ pat) s → Literally (c ∷ []) (Means pat) s
plain_out c pat s p (plain p' h) = (refl, h)
plain_out c pat s p (any e h) = absurd (p.1 e)
plain_out c pat s p (stop e h) = absurd (p.2 e)
plain_out c pat s p (more e h) = absurd (p.2 e)
plain_out c pat s p (escaped e h) = absurd (p.3 e)
plain_out c pat s p (backslash e) = absurd (p.3 e)
plain_out c pat s p (class e w u x i h) = absurd (p.0 e)

pub escaped_in :
    (q c : ℕ) (pat s : List ℕ) → q ≡ 0x5c → Literally (c ∷ []) (Means pat) s → Means (q ∷ c ∷ pat) s
escaped_in q c pat [] e h = absurd h
escaped_in q c pat (d ∷ s) e (same, h) = rw (← same) (escaped e h)

pub escaped_out :
    (q c : ℕ) (pat s : List ℕ) → q ≡ 0x5c → Means (q ∷ c ∷ pat) s → Literally (c ∷ []) (Means pat) s
escaped_out q c pat s e (plain p h) = absurd (p.3 e)
escaped_out q c pat s e (any e' h) = absurd (omega arith)
escaped_out q c pat s e (stop e' h) = absurd (omega arith)
escaped_out q c pat s e (more e' h) = absurd (omega arith)
escaped_out q c pat s e (escaped e' h) = (refl, h)
escaped_out q c pat s e (class e' w u x i h) = absurd (omega arith)

backslash_in : (q : ℕ) (s : List ℕ) → q ≡ 0x5c → Literally (q ∷ []) (Means []) s → Means (q ∷ []) s
backslash_in q [] e h = absurd h
backslash_in q (d ∷ []) e (same, h) = rw (← same) (backslash e)
backslash_in q (d ∷ c ∷ s) e (same, h) = elim h [ ]

backslash_out : (q : ℕ) (s : List ℕ) → q ≡ 0x5c → Means (q ∷ []) s → Literally (q ∷ []) (Means []) s
backslash_out q s e (plain p h) = absurd (p.3 e)
backslash_out q s e (any e' h) = absurd (omega arith)
backslash_out q s e (stop e' h) = absurd (omega arith)
backslash_out q s e (more e' h) = absurd (omega arith)
backslash_out q s e (backslash e') = (refl, done)
backslash_out q s e (class e' w u x i h) = absurd (omega arith)

-- A byte at the end of the pattern that is pushed as itself.
pub last_char :
    (c : ℕ) → c ≢ 0x5b → c ≢ 0x3f → c ≢ 0x2a → Same (Literally (c ∷ []) (Means [])) (Means (c ∷ []))
last_char c h1 h2 h3 s = elim (ℕ_discrete c 0x5c) [
  | yes e ↦ (backslash_in c s e, backslash_out c s e)
  | no n ↦ (plain_in c [] s (h1, h2, h3, n), plain_out c [] s (h1, h2, h3, n))
]
