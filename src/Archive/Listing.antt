-- ===== src/Archive/Listing.antt =====
-- An archive of well-formed entries, and the members that are read from it.
use mold_macho.Archive.{visit, members_loop, Member, ArHeader, parse, after_pad, archive_members}
use mold_macho.Archive.Members.{members_loop_end, members_loop_step, after_pad_near}
use mold_macho.Prelude.{
  ◌+◌, Option, ◌%◌, inl, true, List, length-append, if◌then◌else◌, [], Bool-cases, none, drop,
  length-drop, some, ◌++◌, ◌≡◌, suc, ◌∷◌, false, arith, ◌-◌, ℕ, leb, zero, ◌==◌, refl, inr, ◌≤◌,
  append_assoc, length, ◌<◌, sym, ap, min, ◌∙◌, take,
}
use mold_macho.Prelude.Bytes.{codes, All}
use mold_macho.Prelude.Slices.{drop_all, drop_append_le, take_append_le, drop_add, take_all}

-- A header of 60 bytes and a body whose length the header gives.
pub record Entry : Type 0 where
  pub header : List ℕ
  pub body : List ℕ

abbrev pub IsEntry : Entry → Type 0
IsEntry e =
    (length e.header ≡ 60)
    × (hdr : ArHeader) × (parse e.header ≡ some hdr)
    × (hdr.size ≡ length e.body)

-- A body of odd length is followed by a byte of padding.
abbrev padding : List ℕ → List ℕ
padding body = if length body % 2 == 0 then [] else 0x0a ∷ []

unfoldable pub entries_bytes : List Entry → List ℕ
entries_bytes [] = []
entries_bytes (e ∷ entries) = e.header ++ (e.body ++ (padding e.body ++ entries_bytes entries))

parse-append : (header rest : List ℕ) → length header ≡ 60 → parse (header ++ rest) ≡ parse header
unfolding parse
parse-append header rest h =
    let whole : length (header ++ rest) ≡ 60 + length rest =
      omega (arith, length-append header rest) in
    let t : leb 60 (60 + length rest) ≡ true = ground arith in
    rw
      (
        whole,
        h,
        t,
        take_append_le 16 header rest (omega arith),
        drop_append_le 16 header rest (omega arith),
        take_append_le 12 (drop 16 header) rest (omega (arith, length-drop 16 header)),
        drop_append_le 48 header rest (omega arith),
        take_append_le 10 (drop 48 header) rest (omega (arith, length-drop 48 header)),
      )
      refl

after_pad-even : (at : ℕ) → (after_pad at + 60) % 2 ≡ 0
unfolding after_pad
after_pad-even at = ground arith

-- After a body, the padding is skipped.
skip_padding :
    (body rest : List ℕ) (start : ℕ)
    → start % 2 ≡ 0
    → drop (after_pad (start + length body) - start) (body ++ (padding body ++ rest)) ≡ rest
unfolding after_pad
skip_padding body rest start h = elim (Bool-cases (length body % 2 == 0)) [
  | inl even ↦
      let e : (start + length body) % 2 ≡ 0 = ground arith in
      let e' : start + length body - start ≡ length body = omega arith in
      rw (even, e, e') (drop_all (length body) body rest refl)
  | inr odd ↦
      let e : ((start + length body) % 2 == 0) ≡ false = ground arith in
      let e' : start + length body + 1 - start ≡ length (body ++ 0x0a ∷ []) =
        omega (arith, length-append body (0x0a ∷ [])) in
      rw (odd, e, e', ← append_assoc body (0x0a ∷ []) rest)
        (drop_all (length (body ++ 0x0a ∷ [])) (body ++ 0x0a ∷ []) rest refl)
]

module _ (memmem_find : List ℕ → List ℕ → Option ℕ) where
  -- The members of the entries, each visited with the string table before it.
  unfoldable pub listing : List ℕ → List Entry → List Member
  listing strtab [] = []
  listing strtab (e ∷ entries) = elim (parse e.header) [
    | none ↦ []
    | some hdr ↦
        (visit memmem_find hdr strtab e.body).1
        ++ listing (visit memmem_find hdr strtab e.body).0 entries
  ]

  pub listing-nil : (strtab : List ℕ) → listing strtab [] ≡ []
  unfolding listing
  listing-nil strtab = refl

  pub listing_step :
      (strtab : List ℕ) (e : Entry) (entries : List Entry) (hdr : ArHeader)
      → parse e.header ≡ some hdr
      → listing strtab (e ∷ entries)
        ≡ (visit memmem_find hdr strtab e.body).1
          ++ listing (visit memmem_find hdr strtab e.body).0 entries
  unfolding listing
  listing_step strtab e entries hdr read =
      ap
        (λ found. elim found as (λ x. List Member) [
          | none ↦ []
          | some hdr ↦
              (visit memmem_find hdr strtab e.body).1
              ++ listing (visit memmem_find hdr strtab e.body).0 entries
        ])
        read

  members_round :
      (fuel : ℕ) (data_bytes : List ℕ) (at : ℕ) (strtab : List ℕ) (hdr : ArHeader) (body : List ℕ)
      (place : ℕ) (found : List Member)
      → at + 2 ≤ length data_bytes
      → after_pad at + 60 ≤ length data_bytes
      → parse (drop (after_pad at) data_bytes) ≡ some hdr
      → min (after_pad at + 60 + hdr.size) (length data_bytes) ≡ place
      → take (place - (after_pad at + 60)) (drop (after_pad at + 60) data_bytes) ≡ body
      → members_loop memmem_find fuel data_bytes place (visit memmem_find hdr strtab body).0
        ≡ some found
      → members_loop memmem_find (suc fuel) data_bytes at strtab
        ≡ some ((visit memmem_find hdr strtab body).1 ++ found)
  members_round fuel data_bytes at strtab hdr body place found room fits read ends same more =
      members_loop_step memmem_find fuel data_bytes at strtab hdr room fits read
      ∙ rw (ends, same, more) refl

  members_loop-listing :
      (fuel : ℕ) (data_bytes : List ℕ) (at : ℕ) (strtab : List ℕ) (entries : List Entry)
      → All IsEntry entries
      → at ≤ length data_bytes
      → length data_bytes - at < fuel
      → drop (after_pad at) data_bytes ≡ entries_bytes entries
      → members_loop memmem_find fuel data_bytes at strtab ≡ some (listing strtab entries)
  unfolding listing entries_bytes
  members_loop-listing zero data_bytes at strtab entries h le hf same = absurd (omega arith)
  members_loop-listing (suc fuel) data_bytes at strtab [] h le hf same =
      let near : (at ≤ after_pad at) × (after_pad at ≤ at + 1) = after_pad_near memmem_find at in
      let e : length data_bytes - after_pad at ≡ 0 =
        sym (length-drop (after_pad at) data_bytes) ∙ ap length same in
      members_loop_end memmem_find fuel data_bytes at strtab le (omega arith)
  members_loop-listing (suc fuel) data_bytes at strtab (e ∷ entries) (h, hs) le hf same =
      let (size60, hdr, read, size) = h in
      let near : (at ≤ after_pad at) × (after_pad at ≤ at + 1) = after_pad_near memmem_find at in
      let start = after_pad at + 60 in
      let place = start + length e.body in
      let after = e.body ++ (padding e.body ++ entries_bytes entries) in
      let held : length data_bytes - after_pad at
          ≡ 60 + (length e.body + length (padding e.body ++ entries_bytes entries)) =
        sym (length-drop (after_pad at) data_bytes)
        ∙ ap length same
        ∙ omega (
          arith,
          length-append e.header after,
          length-append e.body (padding e.body ++ entries_bytes entries),
        ) in
      let fits : place ≤ length data_bytes = omega arith in
      let read' : parse (drop (after_pad at) data_bytes) ≡ some hdr =
        rw same (parse-append e.header after size60 ∙ read) in
      let rest : drop start data_bytes ≡ after =
        sym (drop_add (after_pad at) 60 data_bytes)
        ∙ rw same (drop_all 60 e.header after (sym size60)) in
      let m : min (start + hdr.size) (length data_bytes) ≡ place = omega arith in
      let d : place - start ≡ length e.body = omega arith in
      let body : take (place - start) (drop start data_bytes) ≡ e.body =
        rw (d, rest)
          (take_all (length e.body) e.body (padding e.body ++ entries_bytes entries) refl) in
      let ends : (place ≤ after_pad place) × (after_pad place ≤ place + 1) =
        after_pad_near memmem_find place in
      let e1 : start + (after_pad place - start) ≡ after_pad place = omega arith in
      let next : drop (after_pad place) data_bytes ≡ entries_bytes entries =
        ap (λ k. drop k data_bytes) (sym e1)
        ∙ sym (drop_add start (after_pad place - start) data_bytes)
        ∙ ap (drop (after_pad place - start)) rest
        ∙ skip_padding e.body (entries_bytes entries) start (after_pad-even at) in
      members_round fuel data_bytes at strtab hdr e.body place
        (listing (visit memmem_find hdr strtab e.body).0 entries) (omega arith) (omega arith) read'
        m body
        (members_loop-listing fuel data_bytes place (visit memmem_find hdr strtab e.body).0 entries
          hs fits (omega arith) next)
      ∙ ap some (sym (listing_step strtab e entries hdr read))

  -- For an archive of entries whose headers have 60 bytes and give their bodies' lengths, the bodies
  -- of odd length padded, the iterator yields what the entries hold, in their order.
  pub archive_members-listing :
      (entries : List Entry)
      → All IsEntry entries
      → archive_members memmem_find (codes "!<arch>\n" ++ entries_bytes entries)
        ≡ some (listing [] entries)
  unfolding archive_members
  archive_members-listing entries h =
      let rest = entries_bytes entries in
      let e : length (codes "!<arch>\n" ++ rest) ≡ 8 + length rest =
        length-append (codes "!<arch>\n") rest in
      members_loop-listing (suc (length (codes "!<arch>\n" ++ rest))) (codes "!<arch>\n" ++ rest) 8
        [] entries h (omega arith) (omega arith) refl
