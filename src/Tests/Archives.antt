-- ===== src/Tests/Archives.antt =====
-- A run of the archive reader, and its theorems at a concrete archive.
use mold_macho.Archive.{archive_members, parse_decimal, Member, parse, is_ascii_whitespace}
use mold_macho.Archive.Decimal.{parse_decimal-IsU64}
use mold_macho.Archive.Holding.{Holds, string_table, named, nothing, archive_members-Holds}
use mold_macho.Archive.Listing.{Entry, IsEntry, entries_bytes}
use mold_macho.Archive.Names.{slashed, sysv}
use mold_macho.Prelude.{
  arith, [], ◌^◌, ◌∷◌, ◌++◌, ◌≡◌, List, some, refl, ◌<◌, suc, none, drop, ℕ, zero, take,
}
use mold_macho.Prelude.Bytes.{codes, All}
use mold_macho.Tests.Matching.{first_place, first_place-Finds}
use mold_macho.Util.Glob.{strip_prefix}

parse_decimal-IsU64_example :
    (parse_decimal (codes "  42 ") < 10 ^ 5) × (parse_decimal (codes "  42 ") < 2 ^ 64)
parse_decimal-IsU64_example = parse_decimal-IsU64 (codes "  42 ") (omega arith)

abbrev entry : Entry
entry = record {
  header = codes "a.o/            0           0     0     644     3         `\n";
  body = 1 ∷ 2 ∷ 3 ∷ [];
}

-- A string table.
abbrev long_names : Entry
long_names = record {
  body = codes "long_name.o/\n";
  header = codes "//              0           0     0     0       13        `\n";
}

-- An entry under a long name.
abbrev long_entry : Entry
long_entry = record {
  header = codes "/0              0           0     0     644     2         `\n";
  body = 4 ∷ 5 ∷ [];
}

abbrev archive : List Entry
archive = long_names ∷ entry ∷ long_entry ∷ []

archive-IsEntry : All IsEntry archive
unfolding parse parse_decimal
archive-IsEntry = ((refl, _, refl, refl), ((refl, _, refl, refl), ((refl, _, refl, refl), tt)))

abbrev first_member : Member
first_member = record {
  member_name = codes "a.o";
  member_body = 1 ∷ 2 ∷ 3 ∷ [];
  member_date = parse_decimal (take 12 (drop 16 entry.header));
}

abbrev second_member : Member
second_member = record {
  member_name = codes "long_name.o";
  member_body = 4 ∷ 5 ∷ [];
  member_date = parse_decimal (take 12 (drop 16 long_entry.header));
}

no_slash_before :
    (k : ℕ) → k < 11 → strip_prefix (codes "/\n") (drop k (codes "long_name.o/\n")) ≡ none
unfolding strip_prefix
no_slash_before zero h = refl
no_slash_before (suc zero) h = refl
no_slash_before (suc (suc zero)) h = refl
no_slash_before (suc (suc (suc zero))) h = refl
no_slash_before (suc (suc (suc (suc zero)))) h = refl
no_slash_before (suc (suc (suc (suc (suc zero))))) h = refl
no_slash_before (suc (suc (suc (suc (suc (suc zero)))))) h = refl
no_slash_before (suc (suc (suc (suc (suc (suc (suc zero))))))) h = refl
no_slash_before (suc (suc (suc (suc (suc (suc (suc (suc zero)))))))) h = refl
no_slash_before (suc (suc (suc (suc (suc (suc (suc (suc (suc zero))))))))) h = refl
no_slash_before (suc (suc (suc (suc (suc (suc (suc (suc (suc (suc zero)))))))))) h = refl
no_slash_before (suc (suc (suc (suc (suc (suc (suc (suc (suc (suc (suc k))))))))))) h =
    absurd (omega arith)

archive-Holds : Holds [] archive (first_member ∷ second_member ∷ [])
unfolding strip_prefix parse_decimal is_ascii_whitespace
archive-Holds = string_table (codes "             ") refl (
    named (codes "a.o") (1 ∷ 2 ∷ 3 ∷ [])
      (slashed (codes "            ") refl refl (ground arith) refl) refl
      (named (codes "long_name.o") (4 ∷ 5 ∷ [])
        (sysv 0x30 (codes "              ") [] [] refl (omega arith) (omega arith) refl refl
          no_slash_before)
        refl nothing))

archive_members-Holds_example :
    archive_members first_place (codes "!<arch>\n" ++ entries_bytes archive)
    ≡ some (first_member ∷ second_member ∷ [])
archive_members-Holds_example =
    archive_members-Holds first_place first_place-Finds archive (first_member ∷ second_member ∷ [])
      archive-IsEntry archive-Holds
