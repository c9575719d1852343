-- ===== src/Archive/Reading.antt =====
-- What read_name of macho/archive_file.rs reads from the bytes that name a member.
use mold_macho.Archive.{
  sysv_name, ArHeader, parse_decimal, is_strtab, is_symtab, short_name, read_name,
}
use mold_macho.Archive.Names.{
  slashed, spaced, bsd, sysv, short_name-slashed, take_while-zeros, Named, BareEnd, no_slash,
  short_name-spaced,
}
use mold_macho.Prelude.{
  Option, length-append, drop, take, ap₂, ◌≢◌, ◌++◌, ℕ, none, dec_lt, refl, [], ◌∷◌, ◌<◌, false,
  ◌∙◌, List, min, length, ◌≤◌, some, inr, ◌==◌, arith, inl, ◌≡◌, sym, ap,
}
use mold_macho.Prelude.Bytes.{All, codes}
use mold_macho.Prelude.Slices.{drop_all, take_all}
use mold_macho.Util.Glob.{strip_prefix}
use mold_macho.Util.Glob.Bracket.{differs}
use mold_macho.Util.Glob.Places.{Finds}

-- A field that begins with a byte other than a slash: the header is not one of a table.
plain_field :
    (c : ℕ) (field : List ℕ)
    → c ≢ 0x2f
    → (strip_prefix (codes "// ") (c ∷ field) ≡ none)
      × (strip_prefix (codes "/ ") (c ∷ field) ≡ none)
      × (strip_prefix (codes "/SYM64/ ") (c ∷ field) ≡ none)
      × (strip_prefix (codes "/") (c ∷ field) ≡ none)
unfolding strip_prefix
plain_field c field n =
    let e : (0x2f == c) ≡ false = differs 0x2f c (λ bad. n (sym bad)) in
    (rw e refl, rw e refl, rw e refl, rw e refl)

short_field :
    (name rest : List ℕ)
    → All (λ c. c ≢ 0x2f) name
    → BareEnd name
    → (strip_prefix (codes "// ") (name ++ rest) ≡ none)
      × (strip_prefix (codes "/ ") (name ++ rest) ≡ none)
      × (strip_prefix (codes "/SYM64/ ") (name ++ rest) ≡ none)
      × (strip_prefix (codes "/") (name ++ rest) ≡ none)
short_field [] rest h bare = absurd bare
short_field (c ∷ name) rest h bare = plain_field c (name ++ rest) h.0

-- A field without a slash has no BSD mark.
unmarked : (field : List ℕ) → All (λ c. c ≢ 0x2f) field → strip_prefix (codes "#1/") field ≡ none
unfolding strip_prefix
unmarked [] h = refl
unmarked (a ∷ []) h = ground arith
unmarked (a ∷ b ∷ []) h = ground arith
unmarked (a ∷ b ∷ c ∷ field) (ha, (hb, (hc, h))) =
    let e : (0x2f == c) ≡ false = differs 0x2f c (λ bad. hc (sym bad)) in rw e (ground arith)

module _ (find : List ℕ → List ℕ → Option ℕ) where
  -- What a member's header and body are read as.
  abbrev pub Reads : ArHeader → List ℕ → List ℕ → List ℕ → List ℕ → Type 0
  Reads hdr strtab body name content =
      (is_strtab hdr ≡ false)
      × (is_symtab hdr ≡ false)
      × (read_name find hdr strtab body ≡ (name, content))

  short_Reads :
      (hdr : ArHeader) (strtab body name rest : List ℕ)
      → hdr.name ≡ name ++ rest
      → strip_prefix (codes "#1/") (name ++ rest) ≡ none
      → All (λ c. c ≢ 0x2f) name
      → BareEnd name
      → short_name (name ++ rest) ≡ name
      → Reads hdr strtab body name body
  unfolding is_strtab is_symtab read_name
  short_Reads hdr strtab body name rest e bsd_mark h bare short =
      let (strings, symbols, symbols64, slash) = short_field name rest h bare in
      let bsd' : strip_prefix (codes "#1/") hdr.name ≡ none =
        ap (strip_prefix (codes "#1/")) e ∙ bsd_mark in
      let slash' : strip_prefix (codes "/") hdr.name ≡ none =
        ap (strip_prefix (codes "/")) e ∙ slash in
      let short' : short_name hdr.name ≡ name = ap short_name e ∙ short in
      (rw (e, strings) refl, rw (e, symbols, symbols64) refl, rw (bsd', slash', short') refl)

  bsd_Reads :
      (hdr : ArHeader) (strtab body digits name zeros content : List ℕ)
      → hdr.name ≡ codes "#1/" ++ digits
      → body ≡ (name ++ zeros) ++ content
      → length (name ++ zeros) ≡ parse_decimal digits
      → All (λ c. c ≢ 0) name
      → All (λ c. c ≡ 0) zeros
      → Reads hdr strtab body name content
  unfolding is_strtab is_symtab read_name strip_prefix
  bsd_Reads hdr strtab body digits name zeros content e whole size h hz =
      let n : min (parse_decimal digits) (length body) ≡ length (name ++ zeros) =
        omega (arith, size, ap length whole, length-append (name ++ zeros) content) in
      let front : take (length (name ++ zeros)) body ≡ name ++ zeros =
        ap (take (length (name ++ zeros))) whole
        ∙ take_all (length (name ++ zeros)) (name ++ zeros) content refl in
      let back : drop (length (name ++ zeros)) body ≡ content =
        ap (drop (length (name ++ zeros))) whole
        ∙ drop_all (length (name ++ zeros)) (name ++ zeros) content refl in
      (rw e refl, rw e refl, rw (e, n, front, back, take_while-zeros name zeros h hz) refl)

  module _ (finds : Finds find) where
    found_first :
        (name after : List ℕ)
        → ((k : ℕ)
            → k < length name
            → strip_prefix (codes "/\n") (drop k (name ++ 0x2f ∷ 0x0a ∷ after)) ≡ none)
        → find (name ++ 0x2f ∷ 0x0a ∷ after) (codes "/\n") ≡ some (length name)
    found_first name after before =
        let text = name ++ 0x2f ∷ 0x0a ∷ after in
        let here : strip_prefix (codes "/\n") (drop (length name) text) ≡ some after =
          ap (strip_prefix (codes "/\n")) (drop_all (length name) name (0x2f ∷ 0x0a ∷ after) refl)
          ∙ unfold strip_prefix in refl in
        elim (finds text (codes "/\n")) [
          | inl (e, nowhere_it) ↦ let bad = nowhere_it (length name) in absurd cc
          | inr (place, rest, e, at, none_before) ↦ elim (dec_lt place (length name)) [
            | yes early ↦ let bad = before place early in absurd cc
            | no late ↦ elim (dec_lt (length name) place) [
              | yes too_late ↦ let bad = none_before (length name) too_late in absurd cc
              | no not_late ↦ let same : place ≡ length name = omega arith in e ∙ ap some same
            ]
          ]
        ]

    sysv_Reads :
        (hdr : ArHeader) (strtab body : List ℕ) (d : ℕ) (digits before name after : List ℕ)
        → hdr.name ≡ 0x2f ∷ d ∷ digits
        → 0x30 ≤ d
        → d ≤ 0x39
        → strtab ≡ before ++ (name ++ 0x2f ∷ 0x0a ∷ after)
        → length before ≡ parse_decimal (d ∷ digits)
        → ((k : ℕ)
            → k < length name
            → strip_prefix (codes "/\n") (drop k (name ++ 0x2f ∷ 0x0a ∷ after)) ≡ none)
        → Reads hdr strtab body name body
    unfolding is_strtab is_symtab read_name strip_prefix sysv_name
    sysv_Reads hdr strtab body d digits before name after e low high table size first =
        let slash : (0x2f == d) ≡ false = ground arith in
        let space : (0x20 == d) ≡ false = ground arith in
        let s : (0x53 == d) ≡ false = ground arith in
        let start : drop (parse_decimal (d ∷ digits)) strtab ≡ name ++ 0x2f ∷ 0x0a ∷ after =
          ap₂ (λ (n : ℕ) (l : List ℕ). drop n l) (sym size) table
          ∙ drop_all (length before) before (name ++ 0x2f ∷ 0x0a ∷ after) refl in
        let found = found_first name after first in
        let front = take_all (length name) name (0x2f ∷ 0x0a ∷ after) refl in
        let bsd' : strip_prefix (codes "#1/") hdr.name ≡ none = ap (strip_prefix (codes "#1/")) e in
        let slash' : strip_prefix (codes "/") hdr.name ≡ some (d ∷ digits) =
          ap (strip_prefix (codes "/")) e in
        let found' : find (drop (parse_decimal (d ∷ digits)) strtab) (codes "/\n")
            ≡ some (length name) =
          ap (λ l. find l (codes "/\n")) start ∙ found in
        let front' : take (length name) (drop (parse_decimal (d ∷ digits)) strtab) ≡ name =
          ap (take (length name)) start ∙ front in
        let named_so : sysv_name find strtab (d ∷ digits) ≡ name =
          rw (sysv_name, found', front') refl in
        (rw (e, slash) refl, rw (e, space, s) refl, rw (bsd', slash', named_so) refl)

    pub Named-Reads :
        (hdr : ArHeader) (strtab body name content : List ℕ)
        → Named strtab hdr.name body name content
        → Reads hdr strtab body name content
    Named-Reads hdr strtab body name content (slashed pad e bsd_mark h bare) =
        short_Reads hdr strtab body name (0x2f ∷ pad) e
          (ap (strip_prefix (codes "#1/")) (sym e) ∙ bsd_mark) h bare
          (short_name-slashed name pad h bare)
    Named-Reads hdr strtab body name content (spaced pad e h hp bare) =
        short_Reads hdr strtab body name pad e (unmarked (name ++ pad) (no_slash name pad h hp)) h
          bare (short_name-spaced name pad h hp bare)
    Named-Reads hdr strtab body name content (bsd digits zeros e whole size h hz) =
        bsd_Reads hdr strtab body digits name zeros content e whole size h hz
    Named-Reads hdr strtab body name content
          (sysv d digits before after e low high table size first) =
        sysv_Reads hdr strtab body d digits before name after e low high table size first
