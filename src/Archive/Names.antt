-- ===== src/Archive/Names.antt =====
-- The names of an archive's members, by the bytes that the headers and the tables hold.
use mold_macho.Archive.{
  is_not, short_name, take_while, parse_decimal, is_ascii_whitespace, trim_ascii_end,
}
use mold_macho.Prelude.{
  ◌≤◌, if◌then◌else◌, ◌∙◌, ℕ, none, [], ap, false, List, drop, ◌∷◌, ◌==◌, sym, refl, ◌≡◌,
  append-nil, ◌<◌, ◌++◌, arith, ==_iff, length, ◌≢◌, true,
}
use mold_macho.Prelude.Bytes.{All-weaken, codes, All}
use mold_macho.Util.Glob.{strip_prefix}
use mold_macho.Util.Glob.Bracket.{differs}

-- The last byte of a name that is not empty is no white space.
abbrev pub BareEnd : List ℕ → Type 0
BareEnd [] = ⊥
BareEnd (c ∷ []) = is_ascii_whitespace c ≡ false
BareEnd (c ∷ d ∷ name) = BareEnd (d ∷ name)

-- A header's name field and a body, with the string table, name a member and give its content.
pub data Named (strtab field body : List ℕ) : List ℕ → List ℕ → Type 0 where
  -- A short name that a slash ends.
  slashed :
      {name : List ℕ} (pad : List ℕ)
      → field ≡ name ++ 0x2f ∷ pad
      → strip_prefix (codes "#1/") field ≡ none
      → All (λ c. c ≢ 0x2f) name
      → BareEnd name
      → Named strtab field body name body
  -- A short name that is padded with spaces.
  spaced :
      {name : List ℕ} (pad : List ℕ)
      → field ≡ name ++ pad
      → All (λ c. c ≢ 0x2f) name
      → All (λ c. c ≡ 0x20) pad
      → BareEnd name
      → Named strtab field body name body
  -- A name at the start of the body, padded with zeros to the length given.
  bsd :
      {name content : List ℕ} (digits zeros : List ℕ)
      → field ≡ codes "#1/" ++ digits
      → body ≡ (name ++ zeros) ++ content
      → length (name ++ zeros) ≡ parse_decimal digits
      → All (λ c. c ≢ 0) name
      → All (λ c. c ≡ 0) zeros
      → Named strtab field body name content
  -- A name in the string table, at the offset given and up to the first slash at a line's end.
  sysv :
      {name : List ℕ} (d : ℕ) (digits before after : List ℕ)
      → field ≡ 0x2f ∷ d ∷ digits
      → 0x30 ≤ d
      → d ≤ 0x39
      → strtab ≡ before ++ (name ++ 0x2f ∷ 0x0a ∷ after)
      → length before ≡ parse_decimal (d ∷ digits)
      → ((k : ℕ)
          → k < length name
          → strip_prefix (codes "/\n") (drop k (name ++ 0x2f ∷ 0x0a ∷ after)) ≡ none)
      → Named strtab field body name body

-- The bytes before the first `k`.
take_while-stop :
    (k : ℕ) (name rest : List ℕ)
    → All (λ c. c ≢ k) name
    → take_while (is_not k) (name ++ k ∷ rest) ≡ name
unfolding take_while
take_while-stop k [] rest h = let e : (k == k) ≡ true = (==_iff k k).1 refl in rw e refl
take_while-stop k (c ∷ name) rest (n, h) =
    let e : (c == k) ≡ false = differs c k n in rw (e, take_while-stop k name rest h) refl

take_while-whole :
    (k : ℕ) (name : List ℕ) → All (λ c. c ≢ k) name → take_while (is_not k) name ≡ name
unfolding take_while
take_while-whole k [] h = refl
take_while-whole k (c ∷ name) (n, h) =
    let e : (c == k) ≡ false = differs c k n in rw (e, take_while-whole k name h) refl

pub take_while-zeros :
    (name zeros : List ℕ)
    → All (λ c. c ≢ 0) name
    → All (λ c. c ≡ 0) zeros
    → take_while (is_not 0) (name ++ zeros) ≡ name
take_while-zeros name [] h hz =
    ap (take_while (is_not 0)) (append-nil name) ∙ take_while-whole 0 name h
take_while-zeros name (z ∷ zeros) h (e, hz) =
    ap (λ (k : ℕ). take_while (is_not 0) (name ++ k ∷ zeros)) e ∙ take_while-stop 0 name zeros h

trim-spaces : (pad : List ℕ) → All (λ c. c ≡ 0x20) pad → trim_ascii_end pad ≡ []
unfolding trim_ascii_end is_ascii_whitespace
trim-spaces [] h = refl
trim-spaces (c ∷ pad) (e, h) = rw (trim-spaces pad h, e) refl

trim-BareEnd :
    (name pad : List ℕ)
    → BareEnd name
    → All (λ c. c ≡ 0x20) pad
    → trim_ascii_end (name ++ pad) ≡ name
unfolding trim_ascii_end
trim-BareEnd [] pad h hp = absurd h
trim-BareEnd (c ∷ []) pad h hp = rw (trim-spaces pad hp, h) refl
trim-BareEnd (c ∷ d ∷ name) pad h hp =
    ap
      (λ (rest : List ℕ). elim rest as (λ x. List ℕ) [
        | [] ↦ if is_ascii_whitespace c then [] else c ∷ []
        | e ∷ more ↦ c ∷ e ∷ more
      ])
      (trim-BareEnd (d ∷ name) pad h hp)

pub no_slash :
    (name pad : List ℕ)
    → All (λ c. c ≢ 0x2f) name
    → All (λ c. c ≡ 0x20) pad
    → All (λ c. c ≢ 0x2f) (name ++ pad)
no_slash [] pad h hp = All-weaken _ _ pad (λ c e bad. omega arith) hp
no_slash (c ∷ name) pad (n, h) hp = (n, no_slash name pad h hp)

pub short_name-slashed :
    (name pad : List ℕ)
    → All (λ c. c ≢ 0x2f) name
    → BareEnd name
    → short_name (name ++ 0x2f ∷ pad) ≡ name
unfolding short_name
short_name-slashed name pad h bare =
    ap trim_ascii_end (take_while-stop 0x2f name pad h ∙ sym (append-nil name))
    ∙ trim-BareEnd name [] bare tt

pub short_name-spaced :
    (name pad : List ℕ)
    → All (λ c. c ≢ 0x2f) name
    → All (λ c. c ≡ 0x20) pad
    → BareEnd name
    → short_name (name ++ pad) ≡ name
unfolding short_name
short_name-spaced name pad h hp bare =
    ap trim_ascii_end (take_while-whole 0x2f (name ++ pad) (no_slash name pad h hp))
    ∙ trim-BareEnd name pad bare hp
