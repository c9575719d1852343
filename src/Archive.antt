-- ===== src/Archive.antt =====
-- macho/archive_file.rs: the members of an archive. `memmem_find` is memchr's search.
pub mod Decimal
pub mod Members
pub mod Names
pub mod Reading
pub mod Listing
pub mod Holding
use mold_macho.Prelude.{
  ◌==◌, ltb, ◌+◌, not, none, leb, Option, [], ◌*◌, ℕ, ◌%◌, ◌-◌, ◌∷◌, zero, Bool, suc, length, List,
  take, ◌&&◌, ◌++◌, ◌||◌, min, drop, if◌then◌else◌, some,
}
use mold_macho.Prelude.Bytes.{codes}
use mold_macho.Prelude.Fallible.{◌>>=◌, is_some}
use mold_macho.Util.Glob.{strip_prefix}

pub record ArHeader : Type 0 where
  pub name : List ℕ
  pub date : ℕ
  pub size : ℕ

-- What the iterator yields: a name, a body and a date.
pub record Member : Type 0 where
  pub member_name : List ℕ
  pub member_body : List ℕ
  pub member_date : ℕ

abbrev pub header_size : ℕ
header_size = 60

unfoldable pub is_ascii_whitespace : ℕ → Bool
is_ascii_whitespace b = b == 0x20 || b == 0x09 || b == 0x0a || b == 0x0c || b == 0x0d

unfoldable pub is_ascii_digit : ℕ → Bool
is_ascii_digit b = leb 0x30 b && leb b 0x39

unfoldable pub skip_while : (ℕ → Bool) → List ℕ → List ℕ
skip_while test [] = []
skip_while test (b ∷ bytes) = let rest = skip_while test bytes in if test b then rest else b ∷ bytes

unfoldable pub take_while : (ℕ → Bool) → List ℕ → List ℕ
take_while test [] = []
take_while test (b ∷ bytes) = let rest = take_while test bytes in if test b then b ∷ rest else []

unfoldable pub fold_digits : ℕ → List ℕ → ℕ
fold_digits acc [] = acc
fold_digits acc (b ∷ bytes) = fold_digits (acc * 10 + (b - 0x30)) bytes

unfoldable pub parse_decimal : List ℕ → ℕ
unfolding skip_while take_while fold_digits is_ascii_whitespace is_ascii_digit
parse_decimal bytes =
    fold_digits 0 (take_while is_ascii_digit (skip_while is_ascii_whitespace bytes))

-- `ArHeader::parse`.
unfoldable pub parse : List ℕ → Option ArHeader
unfolding parse_decimal
parse bytes =
    if leb header_size (length bytes)
    then some (record {
      name = take 16 bytes;
      date = parse_decimal (take 12 (drop 16 bytes));
      size = parse_decimal (take 10 (drop 48 bytes));
    })
    else none

abbrev pub starts_with : List ℕ → List ℕ → Bool
starts_with bytes prefix = is_some (strip_prefix prefix bytes)

unfoldable pub is_strtab : ArHeader → Bool
unfolding strip_prefix
is_strtab hdr = starts_with hdr.name (codes "// ")

unfoldable pub is_symtab : ArHeader → Bool
unfolding strip_prefix
is_symtab hdr = starts_with hdr.name (codes "/ ") || starts_with hdr.name (codes "/SYM64/ ")

-- The bytes without the white space at their end.
unfoldable pub trim_ascii_end : List ℕ → List ℕ
unfolding is_ascii_whitespace
trim_ascii_end [] = []
trim_ascii_end (b ∷ bytes) = elim (trim_ascii_end bytes) [
  | [] ↦ if is_ascii_whitespace b then [] else b ∷ []
  | c ∷ rest ↦ b ∷ c ∷ rest
]

abbrev pub is_not : ℕ → ℕ → Bool
is_not c b = not (b == c)

-- The name after a `/` and an offset into the string table.
unfoldable pub sysv_name : (List ℕ → List ℕ → Option ℕ) → List ℕ → List ℕ → List ℕ
unfolding parse_decimal
sysv_name memmem_find strtab rest =
    let start = drop (parse_decimal rest) strtab in
    elim (memmem_find start (codes "/\n")) [ none ↦ start | some end ↦ take end start ]

-- A short name ends at a slash, or before the spaces it is padded with.
unfoldable pub short_name : List ℕ → List ℕ
unfolding take_while trim_ascii_end
short_name name = trim_ascii_end (take_while (is_not 0x2f) name)

-- The name of a member and its body, which a BSD name is cut off.
unfoldable pub read_name :
    (List ℕ → List ℕ → Option ℕ) → ArHeader → List ℕ → List ℕ → List ℕ × List ℕ
unfolding strip_prefix parse_decimal take_while sysv_name short_name
read_name memmem_find hdr strtab body = elim (strip_prefix (codes "#1/") hdr.name) [
  | some rest ↦
      let len = min (parse_decimal rest) (length body) in
      (take_while (is_not 0) (take len body), drop len body)
  | none ↦ elim (strip_prefix (codes "/") hdr.name) [
    | some rest ↦ (sysv_name memmem_find strtab rest, body)
    | none ↦ (short_name hdr.name, body)
  ]
]

-- Each header is aligned to a 2 byte boundary.
unfoldable pub after_pad : ℕ → ℕ
after_pad at = if at % 2 == 0 then at else at + 1

module _ (memmem_find : List ℕ → List ℕ → Option ℕ) where
  -- What the loop does with a member: a new string table, and the member it yields, if any.
  unfoldable pub visit : ArHeader → List ℕ → List ℕ → List ℕ × List Member
  unfolding is_strtab is_symtab read_name strip_prefix
  visit hdr strtab body =
      if is_strtab hdr
      then (body, [])
      else if is_symtab hdr
      then (strtab, [])
      else let (name, rest) = read_name memmem_find hdr strtab body in
        if starts_with name (codes "__.SYMDEF") then (strtab, []) else (
          strtab,
          record { member_name = name; member_body = rest; member_date = hdr.date } ∷ [],
        )

  -- The loop of `archive_members`, and the calls that follow. `none` is a subtraction or a slice out
  -- of range. A round takes a header at least, so as many rounds as there are bytes are enough.
  unfoldable pub members_loop : ℕ → List ℕ → ℕ → List ℕ → Option (List Member)
  unfolding parse visit after_pad
  members_loop zero data_bytes at strtab = none
  members_loop (suc fuel) data_bytes at strtab =
      let len = length data_bytes in
      let aligned = after_pad at in
      let read : Option (List Member) = elim (parse (drop aligned data_bytes)) [
        | none ↦ some []
        | some hdr ↦
            let body_start = aligned + header_size in
            let body_end = min (body_start + hdr.size) len in
            let body = take (body_end - body_start) (drop body_start data_bytes) in
            let seen = visit hdr strtab body in
            if ltb body_end body_start
            then none
            else members_loop fuel data_bytes body_end seen.0 >>= (λ rest. some (seen.1 ++ rest))
      ] in
      let more = if ltb len aligned then none else read in
      if ltb len at then none else if ltb (len - at) 2 then some [] else more

  unfoldable pub archive_members : List ℕ → Option (List Member)
  unfolding members_loop
  archive_members data_bytes = members_loop (suc (length data_bytes)) data_bytes 8 []
