-- ===== src/Thunks/Data.antt =====
-- What macho/thunks.rs reads of the subsections of macho/input_sections.rs, of their relocations and
-- of the symbols, and its thunks.
use mold_macho.Prelude.{
  ◌^◌, ◌+◌, Bool, [], ℕ, zero, ◌-◌, ◌∷◌, get_or, Option, ◌==◌, false, if◌then◌else◌, List, suc, ltb,
  bit_and, ◌||◌,
}
use mold_macho.Util.Align.{align_to, align_to_mod}

-- What the layout reads of a relocation, of a subsection and of a symbol.
pub record Rel : Type 0 where
  pub offset : ℕ
  pub is_func_call : Bool
  pub addend : ℕ
  pub sym : Option ℕ

pub record Isec : Type 0 where
  pub size : ℕ
  pub p2align : ℕ
  pub no_modulus : Bool
  pub input_addr : ℕ
  pub rels : List Rel

-- Where a target's subsection is: a member of the section laid out, in another output section, or in
-- no output section.
pub data Place : Type 0 where
  member output : ℕ → Place
  nowhere : Place

pub data FileId : Type 0 where
  obj dylib : ℕ → FileId

pub record Symbol : Type 0 where
  pub has_stub : Bool
  pub is_interposable : Bool
  pub file : Option FileId
  pub input_section : Option Place
  pub value : ℕ
  pub has_objc_stub : Bool

pub record Thunk : Type 0 where
  pub offset : ℕ
  pub syms : List ℕ

pub data Side : Type 0 where
  before after outside : Side

pub record Reach : Type 0 where
  pub sides : ℕ → Side
  pub stubs : Side
  pub objc_stubs : Side
  pub before_room : Option ℕ
  pub after_room : Option ℕ
  pub backward : Bool
  pub forward : Bool

abbrev pub batch_size : ℕ
batch_size = 10485760

abbrev pub max_thunk_size : ℕ
max_thunk_size = 1048576

abbrev pub thunk_align : ℕ
thunk_align = 16

abbrev pub unplaced : ℕ
unplaced = 0xffffffff

-- `InputSection::align_offset`.
unfoldable pub align_offset : Isec → ℕ → ℕ
align_offset isec off =
    let align = 2 ^ isec.p2align in
    if isec.no_modulus
    then align_to off align
    else align_to_mod off align (bit_and isec.input_addr (align - 1))

unfoldable pub offset_at : List ℕ → ℕ → ℕ
offset_at starts i = get_or starts i unplaced

unfoldable pub size_at : List Isec → ℕ → ℕ
size_at [] i = 0
size_at (isec ∷ members) zero = isec.size
size_at (isec ∷ members) (suc i) = size_at members i

-- `partition_point` on the members from `i` on, `len` of them.
unfoldable pub partition_point : (ℕ → Bool) → ℕ → ℕ → ℕ
partition_point test i zero = 0
partition_point test i (suc len) =
    let more = partition_point test (suc i) len in if test i then suc more else 0

unfoldable pub is_marked : ℕ → List ℕ → Bool
is_marked id [] = false
is_marked id (m ∷ marks) = id == m || is_marked id marks

unfoldable pub unmark : ℕ → List ℕ → List ℕ
unmark id [] = []
unmark id (m ∷ marks) = if id == m then unmark id marks else m ∷ unmark id marks

unfoldable pub unmark_all : List ℕ → List ℕ → List ℕ
unfolding unmark
unmark_all [] marks = marks
unmark_all (id ∷ syms) marks = unmark_all syms (unmark id marks)

-- The test of `create_thunks` on the thunks that stay within reach, and the unmarking of the others.
unfoldable pub prune : ℕ → List Thunk → List ℕ → ℕ → List ℕ × ℕ
unfolding unmark_all
prune a_offset [] marks t = (marks, t)
prune a_offset (thunk ∷ thunks) marks t =
    let rest = prune a_offset thunks (unmark_all thunk.syms marks) (t + 1) in
    if ltb thunk.offset a_offset then rest else (marks, t)

unfoldable pub unmark_thunks : List Thunk → List ℕ → List ℕ
unfolding unmark_all
unmark_thunks [] marks = marks
unmark_thunks (thunk ∷ thunks) marks = unmark_thunks thunks (unmark_all thunk.syms marks)
