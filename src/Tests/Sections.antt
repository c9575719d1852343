-- ===== src/Tests/Sections.antt =====
-- A section of five members that is laid out with thunks, and the theorems on it.
use mold_macho.Prelude.{
  [], ℕ, ◌≡◌, false, ◌∷◌, refl, length, List, true, some, none, ◌<◌, arith, ◌*◌, ◌+◌, ◌≤◌, ◌/◌,
}
use mold_macho.Prelude.Bytes.{codes, All}
use mold_macho.Thunks.{create_thunks, State}
use mold_macho.Thunks.Correct.{
  create_thunks-unmarked, create_thunks-total, create_thunks-IsLaid, create_thunks-Serves,
}
use mold_macho.Thunks.Data.{Isec, Symbol, Reach, obj, member, outside, is_marked, offset_at}
use mold_macho.Thunks.Hop.{IsTarget}
use mold_macho.Thunks.Layout.{room, IsSmall, IsLaid}
use mold_macho.Thunks.Reached.{Serves}
use mold_macho.Thunks.Span.{Chunk, mach_header, output_section, other, need_thunks, code_span}
use mold_macho.Thunks.Span.Bound.{need_thunks-code_span}
use mold_macho.Thunks.Valid.{IsSmallThunk, thunk_room, EndsBy}
use mold_macho.Util.Align.{align_to, align_to_mod}

-- A branch that reaches 16 MiB each way.
abbrev near_range : ℕ
near_range = 33554432

-- The symbol `n` is in the member `n`.
abbrev own_symbols : ℕ → Symbol
own_symbols n = record {
  has_stub = false;
  is_interposable = false;
  file = some (obj 0);
  input_section = some (member n);
  value = 4;
  has_objc_stub = false;
}

-- A member of 8 MiB that calls one symbol.
abbrev caller : ℕ → Isec
caller id = record {
  size = 8388608;
  p2align = 4;
  no_modulus = false;
  input_addr = 0;
  rels = record { offset = 8; is_func_call = true; addend = 0; sym = some id } ∷ [];
}

abbrev callers : List Isec
callers = caller 4 ∷ caller 0 ∷ caller 4 ∷ caller 3 ∷ caller 0 ∷ []

abbrev alone : Reach
alone = record {
  sides = λ osec. outside;
  stubs = outside;
  objc_stubs = outside;
  before_room = some 0;
  after_room = some 0;
  backward = false;
  forward = false;
}

unfoldable laid_out : State
unfolding create_thunks
laid_out = elim (create_thunks near_range 12 own_symbols callers alone []) [
  | none ↦ record { starts = []; offset = 0; thunks = []; marks = []; a = 0; b = 0; t = 0 }
  | some last ↦ last
]

laid_out-made : create_thunks near_range 12 own_symbols callers alone [] ≡ some laid_out
unfolding create_thunks laid_out align_to_mod align_to
laid_out-made = refl

laid_out-thunks : length laid_out.thunks ≡ 3
unfolding create_thunks laid_out align_to_mod align_to
laid_out-thunks = refl

callers-IsTarget : IsTarget near_range 12 own_symbols callers
callers-IsTarget =
    let small : IsSmall (caller 0) = (omega arith, omega arith) in
    record {
      far = omega arith;
      not_too_far = omega arith;
      some_size = omega arith;
      small = (small, (small, (small, (small, (small, tt)))));
    }

callers_fit : room callers + length callers * thunk_room < 0xffffffff
unfolding room
callers_fit = omega arith

laid_out_small : All (IsSmallThunk near_range 12) laid_out.thunks
unfolding create_thunks laid_out align_to_mod align_to
laid_out_small = (omega arith, (omega arith, (omega arith, tt)))

create_thunks-total_example :
    (last : State) × (create_thunks near_range 12 own_symbols callers alone [] ≡ some last)
create_thunks-total_example = create_thunks-total near_range 12 own_symbols callers alone []

create_thunks-Serves_example :
    Serves near_range 12 own_symbols callers alone laid_out.starts laid_out.thunks
      (offset_at laid_out.starts 0 + 8)
      4
      4
create_thunks-Serves_example =
    create_thunks-Serves near_range 12 own_symbols callers alone laid_out 0 (caller 4) 0
      (record { offset = 8; is_func_call = true; addend = 0; sym = some 4 }) 4 0 4 callers-IsTarget
      callers_fit laid_out-made laid_out_small refl refl (refl, refl, refl) (omega arith)
      (refl, refl, refl) (omega arith)

create_thunks-IsLaid_example :
    (length laid_out.starts ≡ length callers)
    × IsLaid callers laid_out.starts laid_out.offset
    × All (EndsBy near_range 12 laid_out.offset) laid_out.thunks
create_thunks-IsLaid_example =
    create_thunks-IsLaid near_range 12 own_symbols callers alone laid_out callers-IsTarget
      callers_fit laid_out-made laid_out_small

create_thunks-unmarked_example : is_marked 4 laid_out.marks ≡ false
create_thunks-unmarked_example =
    create_thunks-unmarked near_range 12 own_symbols callers alone laid_out 4 callers-IsTarget
      callers_fit laid_out-made laid_out_small

-- Two code chunks of the segment, one after the other, behind the header.
abbrev image : List Chunk
image =
    record {
      kind = mach_header;
      segname = codes "__TEXT";
      flags = 0;
      p2align = 3;
      size = 0x400;
      addr = 0x1000;
    }
    ∷ record {
      kind = output_section 1;
      segname = codes "__TEXT";
      flags = 0x80000400;
      p2align = 4;
      size = 0x105;
      addr = 0x1400;
    }
    ∷ record {
      kind = other;
      segname = codes "__TEXT";
      flags = 0x80000400;
      p2align = 2;
      size = 24;
      addr = 0x1508;
    }
    ∷ []

image_no_thunks : need_thunks near_range 12 false image ≡ some false
unfolding need_thunks
image_no_thunks = refl

need_thunks-code_span_example : code_span image ≤ near_range / 2
need_thunks-code_span_example =
    need_thunks-code_span near_range 12 image (omega arith) image_no_thunks
      (λ segname. (λ e e'. (omega arith, omega arith), (λ e e'. (omega arith, omega arith), tt)))
      (omega arith, (omega arith, (omega arith, tt)))
