-- ===== src/Util/Glob/Loop.antt =====
-- The loop of `matches` answers whether the tokens match the text, and the rounds are enough.
use mold_macho.Prelude.{
  ◌∙◌, refl, List, zero, suc, sym, true, ◌≡◌, some, ◌+◌, ap, inr, length-drop, ℕ, drop, false,
  arith, [], ◌∷◌, Option, inl, length, ◌≤◌, ◌*◌, Bool-cases, ◌-◌, ap₂, none,
}
use mold_macho.Prelude.Bytes.{bytes_eq_iff}
use mold_macho.Prelude.Fallible.{some_inj}
use mold_macho.Prelude.Slices.{drop_add}
use mold_macho.Util.Glob.{
  Token, str, star, question, bracket, advance, accept, strip_prefix, star_step, Round,
  matches_loop, jump, Next, matches, may_end, Chars, ends_with,
}
use mold_macho.Util.Glob.Meaning.{
  strip_prefix-none, Literally-Later, Matches, strip_prefix-Literally, IsEnd, Later, Later-here,
  Literally, Accepted,
}
use mold_macho.Util.Glob.Places.{
  length-strip_prefix, nowhere, accept-takes, Finds, skip, strip_prefix-drop, accept-fails,
}
use mold_macho.Util.Glob.Search.{
  question_of, advance-Answers, retry-Answers, Right, Answers, star_Searching, more_fuel, Searching,
}

module _ (find : List ℕ → List ℕ → Option ℕ) (finds : Finds find) (G : Type 0) (width : ℕ) where
  pub jump-Answers :
      (fuel room : ℕ) (s literal : List ℕ) (tokens : List Token) (next : Next) (round : Round)
      → Right G width fuel round
      → Searching G width (suc fuel) room s (star ∷ str literal ∷ tokens) next
      → Answers G (jump (find s literal) s literal tokens round)
  unfolding jump advance
  jump-Answers fuel room s literal tokens next round right i = elim (finds s literal) [
    | inl (e, none_at) ↦
        let asked = question_of G width i in
        rw e (
          false,
          refl,
          (λ h. cc, λ g. absurd (nowhere literal (Matches tokens) s none_at (asked.1 g))),
        )
    | inr (place, rest, e, stands, first) ↦
        let K = Matches tokens in
        let text = drop place s in
        let asked = question_of G width i in
        let (into, out) = skip literal K place s first in
        let starred =
          star_Searching G width fuel room text (str literal ∷ tokens)
            (λ h. asked.0 (into h), λ g. out (asked.1 g))
            (omega (arith, i.short, length-drop place s)) i.narrow i.fuelled in
        let left : drop (place + length literal) s ≡ rest =
          sym (drop_add place (length literal) s) ∙ strip_prefix-drop literal text rest stands in
        rw (e, left)
          (advance-Answers G width fuel room text (str literal) tokens
            (some (star ∷ str literal ∷ tokens, text)) round (some rest) right
            (more_fuel G width starred) (λ h. h) (λ e. cc)
            (λ r e'.
              let same : rest ≡ r = some_inj e' in
              let found : strip_prefix literal text ≡ some r = stands ∙ ap some same in
              (
                strip_prefix-Literally literal K text r found,
                Literally-Later literal K text r found,
                length-strip_prefix literal text r found,
              )))
  ]

  pub star_here :
      (fuel room : ℕ) (s : List ℕ) (tokens : List Token) (next : Next) (round : Round)
      → Right G width fuel round
      → Searching G width (suc fuel) room s (star ∷ tokens) next
      → Answers G (round s tokens (some (star ∷ tokens, s)))
  star_here fuel room s tokens next round right i =
      right room s tokens (some (star ∷ tokens, s)) (
        star_Searching G width fuel room s tokens (question_of G width i) i.short i.narrow
          i.fuelled)

  pub star_step-Answers :
      (fuel room : ℕ) (s : List ℕ) (tokens : List Token) (next : Next) (round : Round)
      → Right G width fuel round
      → Searching G width (suc fuel) room s (star ∷ tokens) next
      → Answers G (star_step find s tokens round)
  unfolding star_step
  star_step-Answers fuel room s [] next round right i = star_here fuel room s [] next round right i
  star_step-Answers fuel room s (str literal ∷ tokens) next round right i =
      jump-Answers fuel room s literal tokens next round right i
  star_step-Answers fuel room s (star ∷ tokens) next round right i =
      star_here fuel room s (star ∷ tokens) next round right i
  star_step-Answers fuel room s (question ∷ tokens) next round right i =
      star_here fuel room s (question ∷ tokens) next round right i
  star_step-Answers fuel room s (bracket chars ∷ tokens) next round right i =
      star_here fuel room s (bracket chars ∷ tokens) next round right i

  pub matches_loop-Answers : (fuel : ℕ) → Right G width fuel (matches_loop find fuel)
  unfolding matches_loop
  matches_loop-Answers zero room s tokens next i = absurd (omega (arith, i.fuelled))
  matches_loop-Answers (suc fuel) room [] [] next i = (true, refl, (λ h. i.here tt, λ g. refl))
  matches_loop-Answers (suc fuel) room (c ∷ s) [] next i =
      retry-Answers G width fuel room (c ∷ s) [] next (matches_loop find fuel)
        (matches_loop-Answers fuel) i (λ h. h) (λ h. h)
  matches_loop-Answers (suc fuel) room s (str literal ∷ tokens) next i =
      advance-Answers G width fuel room s (str literal) tokens next (matches_loop find fuel)
        (strip_prefix literal s) (matches_loop-Answers fuel) i (λ h. h)
        (strip_prefix-none literal (Matches tokens) s)
        (λ rest e. (
          strip_prefix-Literally literal (Matches tokens) s rest e,
          Literally-Later literal (Matches tokens) s rest e,
          length-strip_prefix literal s rest e,
        ))
  matches_loop-Answers (suc fuel) room s (star ∷ tokens) next i =
      star_step-Answers fuel room s tokens next (matches_loop find fuel) (matches_loop-Answers fuel)
        i
  matches_loop-Answers (suc fuel) room s (question ∷ tokens) next i =
      advance-Answers G width fuel room s question tokens next (matches_loop find fuel)
        (accept (λ c. true) s) (matches_loop-Answers fuel) i (λ h. h)
        (accept-fails (λ c. true) (Matches tokens) s) (accept-takes (λ c. true) (Matches tokens) s)
  matches_loop-Answers (suc fuel) room s (bracket chars ∷ tokens) next i =
      advance-Answers G width fuel room s (bracket chars) tokens next (matches_loop find fuel)
        (accept chars s) (matches_loop-Answers fuel) i (λ h. h)
        (accept-fails chars (Matches tokens) s) (accept-takes chars (Matches tokens) s)

-- More text before the end changes nothing.
ends_with-cons :
    (c : ℕ) (s suffix : List ℕ) → ends_with s suffix ≡ true → ends_with (c ∷ s) suffix ≡ true
unfolding ends_with
ends_with-cons c s suffix h =
    let fits : length suffix ≤ length s = ground arith in
    let e : suc (length s) - length suffix ≡ suc (length s - length suffix) = omega arith in
    rw e (ground arith)

ends_with-all : (s : List ℕ) → ends_with s s ≡ true
unfolding ends_with
ends_with-all s =
    let e : length s - length s ≡ 0 = omega arith in
    let same = (bytes_eq_iff s s).1 refl in rw e (ground (arith, same))

may_end-cons :
    (tokens : List Token) (c : ℕ) (s : List ℕ)
    → may_end tokens s ≡ true
    → may_end tokens (c ∷ s) ≡ true
unfolding may_end
may_end-cons [] c s h = refl
may_end-cons (str literal ∷ []) c s h = ends_with-cons c s literal h
may_end-cons (star ∷ []) c s h = refl
may_end-cons (question ∷ []) c s h = refl
may_end-cons (bracket chars ∷ []) c s h = refl
may_end-cons (token ∷ next ∷ tokens) c s h = may_end-cons (next ∷ tokens) c s h

module _ (tokens : List Token) (K : List ℕ → Type 0)
    (ends : (s : List ℕ) → K s → may_end tokens s ≡ true) where
  Later-may_end : (s : List ℕ) → Later K s → may_end tokens s ≡ true
  Later-may_end [] h = ends [] h
  Later-may_end (c ∷ s) (inl h) = ends (c ∷ s) h
  Later-may_end (c ∷ s) (inr h) = may_end-cons tokens c s (Later-may_end s h)

  Literally-may_end : (literal s : List ℕ) → Literally literal K s → may_end tokens s ≡ true
  Literally-may_end [] s h = ends s h
  Literally-may_end (x ∷ literal) [] h = absurd h
  Literally-may_end (x ∷ literal) (c ∷ s) (e, h) =
      may_end-cons tokens c s (Literally-may_end literal s h)

  Accepted-may_end : (chars : Chars) (s : List ℕ) → Accepted chars K s → may_end tokens s ≡ true
  Accepted-may_end chars [] h = absurd h
  Accepted-may_end chars (c ∷ s) (e, h) = may_end-cons tokens c s (ends s h)

literal_all : (literal s : List ℕ) → Literally literal IsEnd s → s ≡ literal
literal_all [] [] h = refl
literal_all [] (c ∷ s) h = absurd h
literal_all (x ∷ literal) [] h = absurd h
literal_all (x ∷ literal) (c ∷ s) (e, h) = ap₂ (λ a l. a ∷ l) (sym e) (literal_all literal s h)

Matches-may_end : (tokens : List Token) (s : List ℕ) → Matches tokens s → may_end tokens s ≡ true
unfolding may_end
Matches-may_end [] s h = refl
Matches-may_end (str literal ∷ []) s h =
    let e = literal_all literal s h in rw e (ends_with-all literal)
Matches-may_end (star ∷ []) s h = refl
Matches-may_end (question ∷ []) s h = refl
Matches-may_end (bracket chars ∷ []) s h = refl
Matches-may_end (str literal ∷ next ∷ tokens) s h =
    Literally-may_end (next ∷ tokens) (Matches (next ∷ tokens)) (Matches-may_end (next ∷ tokens))
      literal s h
Matches-may_end (star ∷ next ∷ tokens) s h =
    Later-may_end (next ∷ tokens) (Matches (next ∷ tokens)) (Matches-may_end (next ∷ tokens)) s h
Matches-may_end (question ∷ next ∷ tokens) s h =
    Accepted-may_end (next ∷ tokens) (Matches (next ∷ tokens)) (Matches-may_end (next ∷ tokens))
      (λ c. true) s h
Matches-may_end (bracket chars ∷ next ∷ tokens) s h =
    Accepted-may_end (next ∷ tokens) (Matches (next ∷ tokens)) (Matches-may_end (next ∷ tokens))
      chars s h

-- Given a search for literals that does what memchr's documentation says, the matcher always ends,
-- and its answer is whether the tokens match the whole text.
pub matches-Answers :
    (find : List ℕ → List ℕ → Option ℕ) (tokens : List Token) (s : List ℕ)
    → Finds find
    → Answers (Matches tokens s) (matches find tokens s)
unfolding matches
matches-Answers find tokens s finds = elim (Bool-cases (may_end tokens s)) [
  | inl may ↦ rw may (
      matches_loop-Answers find finds (Matches tokens s) (length tokens + 1)
        ((length s + 1) * (length tokens + 1) + 1) (length s) s tokens none
        (record {
          here = λ h. h;
          after = λ g. Later-here (Matches tokens) s g;
          again = λ h. absurd h;
          either = λ g. inl g;
          kept = λ bare. tt;
          short = omega arith;
          narrow = omega arith;
          fuelled = omega arith;
        }))
  | inr not_may ↦
      rw not_may (false, refl, (λ h. cc, λ g. let may = Matches-may_end tokens s g in cc))
]
