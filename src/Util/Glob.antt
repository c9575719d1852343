-- ===== src/Util/Glob.antt =====
-- The patterns of macho/util/glob.rs. A text is a list of bytes, and an index into it is what
-- stands from there on. `memmem_find` is memchr's search, which the matcher calls.
pub mod Meaning
pub mod Search
pub mod Places
pub mod Loop
pub mod Bracket
pub mod Pattern
pub mod Class
pub mod WellFormed
pub mod Compile
use mold_macho.Prelude.{
  ◌==◌, ◌-◌, false, ◌||◌, none, List, length, zero, ◌++◌, drop, leb, [], ◌+◌, suc, true, ◌&&◌,
  Option, Bool, if◌then◌else◌, ◌∷◌, ℕ, some, ◌*◌,
}
use mold_macho.Prelude.Bytes.{bytes_eq}
use mold_macho.Prelude.Fallible.{◌>>=◌}

-- The array of a bracket, by the byte.
abbrev pub Chars : Type 0
Chars = ℕ → Bool

pub data Token : Type 0 where
  str : List ℕ → Token
  star : Token
  question : Token
  bracket : Chars → Token

-- `chars[c] = true`, and the loop over `start..=end`.
abbrev pub set_range : Chars → ℕ → ℕ → Chars
set_range chars start end x = leb start x && leb x end || chars x

unfoldable pub bracket_loop : Chars → Option ℕ → List ℕ → Option Chars
bracket_loop chars prev [] = some chars
bracket_loop chars prev (c ∷ []) = if c == 0x2d then none else some (set_range chars c c)
bracket_loop chars none (c ∷ end ∷ class) =
    let rest = bracket_loop (set_range chars c c) (some c) (end ∷ class) in
    if c == 0x2d then none else rest
bracket_loop chars (some start) (c ∷ end ∷ class) =
    let ranged = bracket_loop (set_range chars start end) (some c) class in
    let rest = bracket_loop (set_range chars c c) (some c) (end ∷ class) in
    if c == 0x2d then ranged else rest

-- `fn bracket`, of what stands between the brackets.
unfoldable pub bracket_chars : List ℕ → Option Chars
unfolding bracket_loop
bracket_chars class = bracket_loop (λ x. false) none class

-- What stands before the first `]` and after it.
unfoldable pub split_class : List ℕ → Option (List ℕ × List ℕ)
split_class [] = none
split_class (c ∷ pat) =
    let more = split_class pat >>= (λ (class, rest). some (c ∷ class, rest)) in
    if c == 0x5d then some ([], pat) else more

unfoldable pub push_char : List Token → ℕ → List Token
push_char [] c = str (c ∷ []) ∷ []
push_char (str literal ∷ []) c = str (literal ++ c ∷ []) ∷ []
push_char (star ∷ []) c = star ∷ str (c ∷ []) ∷ []
push_char (question ∷ []) c = question ∷ str (c ∷ []) ∷ []
push_char (bracket chars ∷ []) c = bracket chars ∷ str (c ∷ []) ∷ []
push_char (token ∷ next ∷ tokens) c = token ∷ push_char (next ∷ tokens) c

-- `matches!(tokens.last(), Some(Token::Star))`, and the push if it fails.
unfoldable pub push_star : List Token → List Token
push_star [] = star ∷ []
push_star (str literal ∷ []) = str literal ∷ star ∷ []
push_star (star ∷ []) = star ∷ []
push_star (question ∷ []) = question ∷ star ∷ []
push_star (bracket chars ∷ []) = bracket chars ∷ star ∷ []
push_star (token ∷ next ∷ tokens) = token ∷ push_star (next ∷ tokens)

-- The class after a `[`, and the pattern after its `]`.
unfoldable pub read_bracket : List ℕ → Option (Chars × List ℕ)
unfolding split_class bracket_chars
read_bracket pat = do
  (class, rest) ← split_class pat
  chars ← bracket_chars class
  some (chars, rest)

-- A round takes a byte at least, so as many rounds as there are bytes are enough. `none` is a
-- malformed pattern.
unfoldable pub compile_loop : ℕ → List Token → List ℕ → Option (List Token)
unfolding read_bracket push_char push_star
compile_loop fuel tokens [] = some tokens
compile_loop zero tokens (c ∷ pat) = none
compile_loop (suc fuel) tokens (c ∷ []) =
    if c == 0x5b
    then none
    else if c == 0x3f
    then some (tokens ++ question ∷ [])
    else if c == 0x2a
    then some (push_star tokens)
    else some (push_char tokens c)
compile_loop (suc fuel) tokens (c ∷ next ∷ pat) =
    let class =
      read_bracket (next ∷ pat)
      >>= (λ (chars, rest). compile_loop fuel (tokens ++ bracket chars ∷ []) rest) in
    let any = compile_loop fuel (tokens ++ question ∷ []) (next ∷ pat) in
    let many = compile_loop fuel (push_star tokens) (next ∷ pat) in
    let escaped = compile_loop fuel (push_char tokens next) pat in
    let plain = compile_loop fuel (push_char tokens c) (next ∷ pat) in
    if c == 0x5b
    then class
    else if c == 0x3f
    then any
    else if c == 0x2a
    then many
    else if c == 0x5c
    then escaped
    else plain

unfoldable pub compile : List ℕ → Option (List Token)
unfolding compile_loop
compile pat = compile_loop (length pat) [] pat

-- `s.strip_prefix(literal)`: the text after a literal.
unfoldable pub strip_prefix : List ℕ → List ℕ → Option (List ℕ)
strip_prefix [] s = some s
strip_prefix (x ∷ literal) [] = none
strip_prefix (x ∷ literal) (c ∷ s) = if x == c then strip_prefix literal s else none

unfoldable pub ends_with : List ℕ → List ℕ → Bool
unfolding bytes_eq
ends_with s suffix =
    leb (length suffix) (length s) && bytes_eq (drop (length s - length suffix) s) suffix

-- The test of the last token at the start of `matches`.
unfoldable pub may_end : List Token → List ℕ → Bool
unfolding ends_with
may_end [] s = true
may_end (str literal ∷ []) s = ends_with s literal
may_end (star ∷ []) s = true
may_end (question ∷ []) s = true
may_end (bracket chars ∷ []) s = true
may_end (token ∷ next ∷ tokens) s = may_end (next ∷ tokens) s

-- `next`: the tokens from the last star on, and the text at its end; what is retried is the text
-- after the first byte there, if there is one.
abbrev pub Next : Type 0
Next = Option (List Token × List ℕ)

-- A round of the loop of `matches`, at a text and the tokens left.
abbrev pub Round : Type 0
Round = List ℕ → List Token → Next → Option Bool

unfoldable pub retry : Next → Round → Option Bool
retry none round = some false
retry (some (tokens, [])) round = some false
retry (some (tokens, c ∷ s)) round = round s tokens (some (tokens, c ∷ s))

-- `text` is what is left of the text after the token, if it matches.
unfoldable pub advance : Option (List ℕ) → List Token → Next → Round → Option Bool
unfolding retry
advance none tokens next round = retry next round
advance (some text) tokens next round = round text tokens next

-- The text after a byte that the test accepts.
unfoldable pub accept : Chars → List ℕ → Option (List ℕ)
accept chars [] = none
accept chars (c ∷ s) = if chars c then some s else none

-- The jump to the first place of the literal after a star, `place` bytes on.
unfoldable pub jump : Option ℕ → List ℕ → List ℕ → List Token → Round → Option Bool
jump none s literal tokens round = some false
jump (some place) s literal tokens round =
    round (drop (place + length literal) s) tokens
      (some (star ∷ str literal ∷ tokens, drop place s))

module _ (memmem_find : List ℕ → List ℕ → Option ℕ) where
  unfoldable pub star_step : List ℕ → List Token → Round → Option Bool
  unfolding jump
  star_step s [] round = round s [] (some (star ∷ [], s))
  star_step s (str literal ∷ tokens) round = jump (memmem_find s literal) s literal tokens round
  star_step s (star ∷ tokens) round = round s (star ∷ tokens) (some (star ∷ star ∷ tokens, s))
  star_step s (question ∷ tokens) round =
      round s (question ∷ tokens) (some (star ∷ question ∷ tokens, s))
  star_step s (bracket chars ∷ tokens) round =
      round s (bracket chars ∷ tokens) (some (star ∷ bracket chars ∷ tokens, s))

  unfoldable pub matches_loop : ℕ → Round
  unfolding retry advance star_step strip_prefix accept
  matches_loop zero s tokens next = none
  matches_loop (suc fuel) [] [] next = some true
  matches_loop (suc fuel) (c ∷ s) [] next = retry next (matches_loop fuel)
  matches_loop (suc fuel) s (str literal ∷ tokens) next =
      advance (strip_prefix literal s) tokens next (matches_loop fuel)
  matches_loop (suc fuel) s (star ∷ tokens) next = star_step s tokens (matches_loop fuel)
  matches_loop (suc fuel) s (question ∷ tokens) next =
      advance (accept (λ c. true) s) tokens next (matches_loop fuel)
  matches_loop (suc fuel) s (bracket chars ∷ tokens) next =
      advance (accept chars s) tokens next (matches_loop fuel)

  -- Each retry moves the end of the last star on, and between two of them the tokens are used up.
  unfoldable pub matches : List Token → List ℕ → Option Bool
  unfolding matches_loop may_end
  matches tokens s =
      if may_end tokens s
      then matches_loop ((length s + 1) * (length tokens + 1) + 1) s tokens none
      else some false
