-- ===== src/Archive/Holding.antt =====
-- The members that an archive of macho/archive_file.rs holds, and the loop that yields them.
use mathlib.Core.Path.{subst}
use mold_macho.Archive.{
  Member, visit, ArHeader, is_strtab, parse, parse_decimal, archive_members, is_symtab,
}
use mold_macho.Archive.Listing.{
  listing, listing-nil, listing_step, entries_bytes, IsEntry, Entry, archive_members-listing,
}
use mold_macho.Archive.Names.{Named}
use mold_macho.Archive.Reading.{Named-Reads, Reads}
use mold_macho.Prelude.{
  sym, ◌++◌, [], refl, ◌∙◌, Option, List, inr, Bool-cases, some, inl, leb, ap, ℕ, arith, ◌≡◌, ◌∷◌,
  ◌⊎◌, take, length, none, drop,
}
use mold_macho.Prelude.Bytes.{codes, All}
use mold_macho.Prelude.Fallible.{some_inj}
use mold_macho.Util.Glob.{strip_prefix}
use mold_macho.Util.Glob.Places.{Finds}

-- The members that entries hold, after the string table: a table of long names is kept for the
-- entries behind it, the symbol tables are skipped, and each other entry is a member under its
-- name.
pub data Holds : List ℕ → List Entry → List Member → Type 0 where
  nothing : {strtab : List ℕ} → Holds strtab [] []
  string_table :
      {strtab : List ℕ} {e : Entry} {entries : List Entry} {members : List Member} (field : List ℕ)
      → take 16 e.header ≡ codes "// " ++ field
      → Holds e.body entries members
      → Holds strtab (e ∷ entries) members
  symbol_table :
      {strtab : List ℕ} {e : Entry} {entries : List Entry} {members : List Member} (field : List ℕ)
      → (take 16 e.header ≡ codes "/ " ++ field) ⊎ (take 16 e.header ≡ codes "/SYM64/ " ++ field)
      → Holds strtab entries members
      → Holds strtab (e ∷ entries) members
  bsd_symbols :
      {strtab : List ℕ} {e : Entry} {entries : List Entry} {members : List Member}
      (name content : List ℕ)
      → Named strtab (take 16 e.header) e.body (codes "__.SYMDEF" ++ name) content
      → Holds strtab entries members
      → Holds strtab (e ∷ entries) members
  named :
      {strtab : List ℕ} {e : Entry} {entries : List Entry} {members : List Member}
      (name content : List ℕ)
      → Named strtab (take 16 e.header) e.body name content
      → strip_prefix (codes "__.SYMDEF") name ≡ none
      → Holds strtab entries members
      → Holds strtab (e ∷ entries) (
          record {
            member_name = name;
            member_body = content;
            member_date = parse_decimal (take 12 (drop 16 e.header));
          }
          ∷ members)

parse-fields :
    (header : List ℕ) (hdr : ArHeader)
    → parse header ≡ some hdr
    → (take 16 header ≡ hdr.name) × (parse_decimal (take 12 (drop 16 header)) ≡ hdr.date)
unfolding parse
parse-fields header hdr h = elim (Bool-cases (leb 60 (length header))) [
  | inl long ↦
      let e = some_inj (rw long at h) in
      (ap (λ (x : ArHeader). x.name) e, ap (λ (x : ArHeader). x.date) e)
  | inr short ↦ absurd (ground arith)
]

module _ (find : List ℕ → List ℕ → Option ℕ) where
  visit-strings :
      (hdr : ArHeader) (strtab body field : List ℕ)
      → hdr.name ≡ codes "// " ++ field
      → visit find hdr strtab body ≡ (body, [])
  unfolding visit is_strtab strip_prefix
  visit-strings hdr strtab body field e = rw e refl

  visit-symbols :
      (hdr : ArHeader) (strtab body field : List ℕ)
      → (hdr.name ≡ codes "/ " ++ field) ⊎ (hdr.name ≡ codes "/SYM64/ " ++ field)
      → visit find hdr strtab body ≡ (strtab, [])
  unfolding visit is_strtab is_symtab strip_prefix
  visit-symbols hdr strtab body field (inl e) = rw e refl
  visit-symbols hdr strtab body field (inr e) = rw e refl

  visit-bsd_symbols :
      (hdr : ArHeader) (strtab body name content : List ℕ)
      → Reads find hdr strtab body (codes "__.SYMDEF" ++ name) content
      → visit find hdr strtab body ≡ (strtab, [])
  unfolding visit strip_prefix
  visit-bsd_symbols hdr strtab body name content (s, t, r) = rw (s, t, r) refl

  visit-named :
      (hdr : ArHeader) (strtab body name content : List ℕ)
      → Reads find hdr strtab body name content
      → strip_prefix (codes "__.SYMDEF") name ≡ none
      → visit find hdr strtab body ≡ (
        strtab,
        record { member_name = name; member_body = content; member_date = hdr.date } ∷ [],
      )
  unfolding visit
  visit-named hdr strtab body name content (s, t, r) n = rw (s, t, r, n) refl

module _ (find : List ℕ → List ℕ → Option ℕ) (finds : Finds find) where
  listing-Holds :
      (strtab : List ℕ) (entries : List Entry) (members : List Member)
      → All IsEntry entries
      → Holds strtab entries members
      → listing find strtab entries ≡ members
  listing-Holds strtab [] members h nothing = listing-nil find strtab
  listing-Holds strtab (e ∷ entries) members ((n, hdr, read, size), hs) (string_table field f h) =
      let (name, date) = parse-fields e.header hdr read in
      listing_step find strtab e entries hdr read
      ∙ rw (visit-strings find hdr strtab e.body field (sym name ∙ f))
          (listing-Holds e.body entries members hs h)
  listing-Holds strtab (e ∷ entries) members ((n, hdr, read, size), hs) (symbol_table field f h) =
      let (name, date) = parse-fields e.header hdr read in
      let f' : (hdr.name ≡ codes "/ " ++ field) ⊎ (hdr.name ≡ codes "/SYM64/ " ++ field) =
        subst (λ (x : List ℕ). (x ≡ codes "/ " ++ field) ⊎ (x ≡ codes "/SYM64/ " ++ field)) name
          f in
      listing_step find strtab e entries hdr read
      ∙ rw (visit-symbols find hdr strtab e.body field f')
          (listing-Holds strtab entries members hs h)
  listing-Holds strtab (e ∷ entries) members ((n, hdr, read, size), hs)
        (bsd_symbols name content by h) =
      let (field, date) = parse-fields e.header hdr read in
      let by' =
        subst (λ (x : List ℕ). Named strtab x e.body (codes "__.SYMDEF" ++ name) content) field
          by in
      let reads =
        Named-Reads find finds hdr strtab e.body (codes "__.SYMDEF" ++ name) content by' in
      listing_step find strtab e entries hdr read
      ∙ rw (visit-bsd_symbols find hdr strtab e.body name content reads)
          (listing-Holds strtab entries members hs h)
  listing-Holds strtab (e ∷ entries) (m ∷ members) ((n, hdr, read, size), hs)
        (named name content by plain h) =
      let (field, date) = parse-fields e.header hdr read in
      let by' = subst (λ (x : List ℕ). Named strtab x e.body name content) field by in
      let reads = Named-Reads find finds hdr strtab e.body name content by' in
      listing_step find strtab e entries hdr read
      ∙ rw
          (
            visit-named find hdr strtab e.body name content reads plain,
            listing-Holds strtab entries members hs h,
            date,
          )
          refl

  -- Of an archive of entries whose headers have 60 bytes and give their bodies' lengths, the bodies
  -- of odd length padded, read through a search that does what memchr's documentation says, the
  -- iterator yields exactly the members that the entries hold, in their order: it keeps a string
  -- table for the names behind it, skips the symbol tables, and gives each other entry under its
  -- name, which is short, in the body or in the string table.
  pub archive_members-Holds :
      (entries : List Entry) (members : List Member)
      → All IsEntry entries
      → Holds [] entries members
      → archive_members find (codes "!<arch>\n" ++ entries_bytes entries) ≡ some members
  archive_members-Holds entries members h holds =
      archive_members-listing find entries h ∙ ap some (listing-Holds [] entries members h holds)
