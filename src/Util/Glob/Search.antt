-- ===== src/Util/Glob/Search.antt =====
-- The loop of `matches` answers whether the tokens match the text.
use mold_macho.Prelude.{
  List, ◌≤◌, ◌*◌, arith, Bool, ℕ, refl, false, none, Option, [], ◌≡◌, some, length, ◌+◌, inl, suc,
  ◌↔◌, ◌∷◌, ◌<◌, true, ◌⊎◌, zero, inr,
}
use mold_macho.Util.Glob.{Token, str, star, question, bracket, Round, retry, Next, advance}
use mold_macho.Util.Glob.Meaning.{Matches, Later, Later-flat, Later-here}

-- An answer that is right about `G`.
abbrev pub Answers : Type 0 → Option Bool → Type 0
Answers G r = (b : Bool) × (r ≡ some b) × ((b ≡ true) ↔ G)

-- The tokens go on with a star.
abbrev pub IsStarred : List Token → Type 0
IsStarred [] = ⊥
IsStarred (str literal ∷ tokens) = ⊥
IsStarred (star ∷ tokens) = Unit
IsStarred (question ∷ tokens) = ⊥
IsStarred (bracket chars ∷ tokens) = ⊥

pub other : {A B : Type 0} → A ⊎ B → ¬ A → B
other (inl a) fails = absurd (fails a)
other (inr b) fails = b

module _ (G : Type 0) (width : ℕ) where
  -- What a retry would match.
  abbrev Retried : Next → Type 0
  Retried none = ⊥
  Retried (some (tokens, [])) = ⊥
  Retried (some (tokens, c ∷ s)) = Matches tokens s

  -- The text that is kept for a retry is not longer than `room`, nor shorter than the one at hand.
  abbrev Kept : ℕ → List ℕ → Next → Type 0
  Kept room s none = Unit
  Kept room s (some (tokens, text)) =
      (length s ≤ length text) × (length text ≤ room) × (length tokens < width) × IsStarred tokens

  -- `G` is the question that the search began with.
  pub record Searching (fuel room : ℕ) (s : List ℕ) (tokens : List Token) (next : Next)
      : Type 0 where
    pub here : Matches tokens s → G
    pub after : G → Later (Matches tokens) s
    pub again : Retried next → G
    pub either : G → Matches tokens s ⊎ Retried next
    pub kept : ¬ IsStarred tokens → Kept room s next
    pub short : length s ≤ room
    pub narrow : length tokens < width
    pub fuelled : room * width + length tokens < fuel

  -- What a round has to do for every state of the search.
  abbrev pub Right : ℕ → Round → Type 0
  Right fuel round =
      (room : ℕ) (s : List ℕ) (tokens : List Token) (next : Next)
      → Searching fuel room s tokens next
      → Answers G (round s tokens next)

  pub retry-Answers :
      (fuel room : ℕ) (s : List ℕ) (tokens : List Token) (next : Next) (round : Round)
      → Right fuel round
      → Searching (suc fuel) room s tokens next
      → ¬ IsStarred tokens
      → ¬ Matches tokens s
      → Answers G (retry next round)
  unfolding retry
  retry-Answers fuel room s tokens none round right i plain fails =
      (false, refl, (λ h. cc, λ g. absurd (other (i.either g) fails)))
  retry-Answers fuel room s tokens (some (saved, [])) round right i plain fails =
      (false, refl, (λ h. cc, λ g. absurd (other (i.either g) fails)))
  retry-Answers fuel zero s tokens (some (saved, c ∷ text)) round right i plain fails =
      absurd (omega (arith, i.kept plain))
  retry-Answers fuel (suc room) s tokens (some (saved, c ∷ text)) round right i plain fails =
      let kept = i.kept plain in
      right room text saved (some (saved, c ∷ text)) (record {
        here = i.again;
        after = λ g. Later-here (Matches saved) text (other (i.either g) fails);
        again = i.again;
        either = λ g. inl (other (i.either g) fails);
        kept = λ bare. absurd (bare kept.3);
        short = omega arith;
        narrow = kept.2;
        fuelled = omega (arith, kept.2, i.fuelled);
      })

  -- A token that takes some text: what is left is `rest`, if anything.
  pub advance-Answers :
      (fuel room : ℕ) (s : List ℕ) (token : Token) (tokens : List Token) (next : Next)
      (round : Round) (left : Option (List ℕ))
      → Right fuel round
      → Searching (suc fuel) room s (token ∷ tokens) next
      → ¬ IsStarred (token ∷ tokens)
      → (left ≡ none → ¬ Matches (token ∷ tokens) s)
      → ((rest : List ℕ)
          → left ≡ some rest
          → (Matches tokens rest ↔ Matches (token ∷ tokens) s)
            × (Later (Matches (token ∷ tokens)) s → Later (Matches tokens) rest)
            × (length rest ≤ length s))
      → Answers G (advance left tokens next round)
  unfolding advance
  advance-Answers fuel room s token tokens next round none right i plain fails takes =
      retry-Answers fuel room s (token ∷ tokens) next round right i plain (fails refl)
  advance-Answers fuel room s token tokens next round (some rest) right i plain fails takes =
      let (same, later, shorter) = takes rest refl in
      right room rest tokens next (record {
        here = λ h. i.here (same.0 h);
        after = λ g. later (i.after g);
        again = i.again;
        either = λ g. first_in (same.1) (i.either g);
        kept = λ bare. keep s rest next shorter (i.kept plain);
        short = omega (arith, i.short);
        narrow = omega (arith, i.narrow);
        fuelled = omega (arith, i.fuelled);
      })
    where
      first_in : {A B C : Type 0} → (A → B) → A ⊎ C → B ⊎ C
      first_in f (inl a) = inl (f a)
      first_in f (inr c) = inr c

      keep :
          (t rest : List ℕ) (n : Next) → length rest ≤ length t → Kept room t n → Kept room rest n
      keep t rest none h k = tt
      keep t rest (some (ts, text)) h k = (omega (arith, k.0), k.1, k.2, k.3)

  pub star-Retried :
      (s : List ℕ) (tokens : List Token)
      → Retried (some (star ∷ tokens, s))
      → Later (Matches tokens) s
  star-Retried [] tokens h = absurd h
  star-Retried (c ∷ s) tokens h = inr h

  pub star_either :
      (s : List ℕ) (tokens : List Token)
      → Later (Matches tokens) s
      → Matches tokens s ⊎ Retried (some (star ∷ tokens, s))
  star_either [] tokens h = inl h
  star_either (c ∷ s) tokens h = h

  -- A star, whose end is kept.
  pub star_Searching :
      (fuel room : ℕ) (s : List ℕ) (tokens : List Token)
      → (Matches (star ∷ tokens) s ↔ G)
      → length s ≤ room
      → suc (length tokens) < width
      → room * width + suc (length tokens) < suc fuel
      → Searching fuel room s tokens (some (star ∷ tokens, s))
  star_Searching fuel room s tokens (into, out) short narrow fuelled = record {
    here = λ h. into (Later-here (Matches tokens) s h);
    after = out;
    again = λ h. into (star-Retried s tokens h);
    either = λ g. star_either s tokens (out g);
    kept = λ bare. (omega arith, short, narrow, tt);
    short = short;
    narrow = omega arith;
    fuelled = omega arith;
  }

  pub question_of :
      {fuel room : ℕ} {s : List ℕ} {tokens : List Token} {next : Next}
      → Searching (suc fuel) room s (star ∷ tokens) next
      → Matches (star ∷ tokens) s ↔ G
  question_of {s} {tokens} i = (i.here, λ g. Later-flat (Matches tokens) s (i.after g))

  pub more_fuel :
      {fuel room : ℕ} {s : List ℕ} {tokens : List Token} {next : Next}
      → Searching fuel room s tokens next
      → Searching (suc fuel) room s tokens next
  more_fuel i = record {
    here = i.here;
    after = i.after;
    again = i.again;
    either = i.either;
    kept = i.kept;
    short = i.short;
    narrow = i.narrow;
    fuelled = omega (arith, i.fuelled);
  }
