-- ===== src/Util/Text/Lines.antt =====
-- `lines` of macho/util/mod.rs, and the text files that it reads.
use mold_macho.Prelude.{
  Bool, ◌==◌, List, ◌++◌, append-nil, [], true, ℕ, ◌∷◌, false, if◌then◌else◌, ap₂, refl, ap, ◌≡◌,
  map, ◌∙◌, ==_self,
}
use mold_macho.Prelude.Bytes.{All, All-append}

-- `strip_suffix` of one byte.
unfoldable pub strip_last : ℕ → List ℕ → List ℕ
strip_last c [] = []
strip_last c (b ∷ []) = if b == c then [] else b ∷ []
strip_last c (b ∷ b' ∷ bytes) = b ∷ strip_last c (b' ∷ bytes)

abbrev pub push_first : ℕ → List (List ℕ) → List (List ℕ)
push_first b [] = (b ∷ []) ∷ []
push_first b (part ∷ parts) = (b ∷ part) ∷ parts

-- `split`: the parts between the separators, one at least.
unfoldable pub split_on : ℕ → List ℕ → List (List ℕ)
split_on c [] = [] ∷ []
split_on c (b ∷ bytes) =
    let parts = split_on c bytes in if b == c then [] ∷ parts else push_first b parts

unfoldable pub lines : List ℕ → List (List ℕ)
unfolding strip_last split_on
lines [] = []
lines (b ∷ text) = map (strip_last 0x0d) (split_on 0x0a (strip_last 0x0a (b ∷ text)))

-- A line of a file, and whether it ends as on Windows.
abbrev pub Line : Type 0
Line = List ℕ × Bool

abbrev pub line_bytes : Line → List ℕ
line_bytes (text, true) = text ++ 0x0d ∷ []
line_bytes (text, false) = text

-- A text file: its lines, each ended.
unfoldable pub file_of : List Line → List ℕ
file_of [] = []
file_of (line ∷ lines) = line_bytes line ++ 0x0a ∷ file_of lines

-- No line has a newline, or ends with a carriage return.
abbrev pub IsLine : Line → Type 0
IsLine (text, cr) = All (λ b. (b == 0x0a) ≡ false) text × (strip_last 0x0d text ≡ text)

strip_last-append :
    (c y : ℕ) (xs ys : List ℕ) → strip_last c (xs ++ y ∷ ys) ≡ xs ++ strip_last c (y ∷ ys)
unfolding strip_last
strip_last-append c y [] ys = refl
strip_last-append c y (x ∷ []) ys = refl
strip_last-append c y (x ∷ x' ∷ xs) ys = ap (λ l. x ∷ l) (strip_last-append c y (x' ∷ xs) ys)

split_on-one : (c : ℕ) (xs : List ℕ) → All (λ b. (b == c) ≡ false) xs → split_on c xs ≡ xs ∷ []
unfolding split_on
split_on-one c [] h = refl
split_on-one c (x ∷ xs) (h, hs) = rw (h, split_on-one c xs hs) refl

split_on-append :
    (c : ℕ) (xs ys : List ℕ)
    → All (λ b. (b == c) ≡ false) xs
    → split_on c (xs ++ c ∷ ys) ≡ xs ∷ split_on c ys
unfolding split_on
split_on-append c [] ys h = rw (==_self c) refl
split_on-append c (x ∷ xs) ys (h, hs) = rw (h, split_on-append c xs ys hs) refl

line_bytes-strip_last : (line : Line) → IsLine line → strip_last 0x0d (line_bytes line) ≡ line.0
unfolding strip_last
line_bytes-strip_last (text, true) (plain, bare) =
    strip_last-append 0x0d 0x0d text [] ∙ append-nil text
line_bytes-strip_last (text, false) (plain, bare) = bare

line_bytes_plain : (line : Line) → IsLine line → All (λ b. (b == 0x0a) ≡ false) (line_bytes line)
line_bytes_plain (text, true) (plain, bare) =
    All-append (λ b. (b == 0x0a) ≡ false) text (0x0d ∷ []) plain (refl, tt)
line_bytes_plain (text, false) (plain, bare) = plain

abbrev Starts : List ℕ → Type 0
Starts bytes = (b : ℕ) × (rest : List ℕ) × (bytes ≡ b ∷ rest)

append-Starts : (c : ℕ) (xs ys : List ℕ) → Starts (xs ++ c ∷ ys)
append-Starts c [] ys = (c, ys, refl)
append-Starts c (x ∷ xs) ys = (x, xs ++ c ∷ ys, refl)

strip_last-more :
    (c b : ℕ) (bytes : List ℕ) → Starts bytes → strip_last c (b ∷ bytes) ≡ b ∷ strip_last c bytes
unfolding strip_last
strip_last-more c b bytes (y, ys, e) = rw e refl

lines-Starts :
    (text : List ℕ)
    → Starts text
    → lines text ≡ map (strip_last 0x0d) (split_on 0x0a (strip_last 0x0a text))
unfolding lines
lines-Starts text (y, ys, e) = rw e refl

-- The file's text without its last newline, split.
split_on-file_of :
    (line : Line) (lines : List Line)
    → IsLine line
    → All IsLine lines
    → split_on 0x0a (strip_last 0x0a (file_of (line ∷ lines))) ≡ map line_bytes (line ∷ lines)
unfolding file_of strip_last
split_on-file_of line [] h hs =
    rw (strip_last-append 0x0a 0x0a (line_bytes line) [], append-nil (line_bytes line))
      (split_on-one 0x0a (line_bytes line) (line_bytes_plain line h))
split_on-file_of line (next ∷ lines) h (h', hs) =
    let more = append-Starts 0x0a (line_bytes next) (file_of lines) in
    rw
      (
        strip_last-append 0x0a 0x0a (line_bytes line) (line_bytes next ++ 0x0a ∷ file_of lines),
        strip_last-more 0x0a 0x0a (line_bytes next ++ 0x0a ∷ file_of lines) more,
        split_on-append 0x0a (line_bytes line)
            (strip_last 0x0a (line_bytes next ++ 0x0a ∷ file_of lines)) (line_bytes_plain line h),
      )
      (ap (λ ls. line_bytes line ∷ ls) (split_on-file_of next lines h' hs))

map-strip_last :
    (lines : List Line)
    → All IsLine lines
    → map (strip_last 0x0d) (map line_bytes lines) ≡ map (λ (l : Line). l.0) lines
map-strip_last [] h = refl
map-strip_last (line ∷ lines) (h, hs) =
    ap₂ (λ l ls. l ∷ ls) (line_bytes-strip_last line h) (map-strip_last lines hs)

-- The lines of a text file whose lines each end at a newline, or a carriage return and a newline, are
-- those lines without their ends, if none of them has a newline or ends with a carriage return.
pub lines-file_of :
    (file : List Line) → All IsLine file → lines (file_of file) ≡ map (λ (l : Line). l.0) file
unfolding lines file_of
lines-file_of [] h = refl
lines-file_of (line ∷ rest) (h, hs) =
    lines-Starts (line_bytes line ++ 0x0a ∷ file_of rest)
      (append-Starts 0x0a (line_bytes line) (file_of rest))
    ∙ ap (map (strip_last 0x0d)) (split_on-file_of line rest h hs)
    ∙ map-strip_last (line ∷ rest) (h, hs)
