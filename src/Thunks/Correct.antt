-- ===== src/Thunks/Correct.antt =====
-- `create_thunks` of macho/thunks.rs as a whole.
use mathlib.Core.Path.{subst}
use mold_macho.Prelude.{
  length, sym, arith, ◌*◌, some, refl, drop, ◌+◌, false, get_elem?, ℕ, List, ◌≡◌, ◌<◌, [], ◌≤◌, ◌∙◌,
}
use mold_macho.Prelude.Bytes.{All}
use mold_macho.Prelude.Fallible.{some_inj}
use mold_macho.Prelude.Slices.{get_elem?-in}
use mold_macho.Thunks.{State, create_loop, create_thunks}
use mold_macho.Thunks.Claims.{IsBranch}
use mold_macho.Thunks.Data.{Isec, Rel, Symbol, Reach, offset_at, unmark_thunks, is_marked}
use mold_macho.Thunks.Hop.{IsTarget}
use mold_macho.Thunks.Layout.{IsLaid, room}
use mold_macho.Thunks.Loop.{IsLaidOut, loop_total, loop_holds}
use mold_macho.Thunks.Marks.{unmark_thunks-none}
use mold_macho.Thunks.Reached.{IsOwn, Serves}
use mold_macho.Thunks.Valid.{IsSmallThunk, EndsBy, thunk_room}

module _ (branch_range thunk_size : ℕ) (symbols : ℕ → Symbol) (members : List Isec)
    (reach : Reach) where
  abbrev first : List ℕ → State
  first marks = record { starts = []; offset = 0; thunks = []; marks = marks; a = 0; b = 0; t = 0 }

  abbrev unmarked : State → State
  unmarked s = record {
    starts = s.starts;
    offset = s.offset;
    thunks = s.thunks;
    marks = unmark_thunks (drop s.t s.thunks) s.marks;
    a = s.a;
    b = s.b;
    t = s.t;
  }

  ends :
      (marks : List ℕ)
      → (s : State) × (create_loop branch_range thunk_size symbols
            (length members)
            members
            reach
            (first marks)
          ≡ some s)
        × (create_thunks branch_range thunk_size symbols members reach marks ≡ some (unmarked s))
  unfolding create_thunks
  ends marks =
      let (s, e) =
        loop_total branch_range thunk_size symbols members reach (length members) (first marks)
          (omega arith) in
      (s, e, rw e refl)

  first_holds :
      room members + length members * thunk_room < 0xffffffff
      → IsLaidOut branch_range thunk_size symbols members reach (first [])
  unfolding is_marked
  first_holds fits = record {
    valid = record {
      laid = record {
        count = omega arith;
        ordered = λ i j lt h. absurd (omega arith);
        ends = λ i h. absurd (omega arith);
      };
      a_le = omega arith;
      b_le = omega arith;
      near = λ h. absurd (omega arith);
      ended = tt;
      ascending = tt;
      t_le = omega arith;
      held = λ id h. absurd (ground arith);
      fits = omega arith;
    };
    served = λ i isec k rel id f j lt nth at branch inside own hj. absurd (omega arith);
  }

  holds :
      (last : State)
      → IsTarget branch_range thunk_size symbols members
      → room members + length members * thunk_room < 0xffffffff
      → create_thunks branch_range thunk_size symbols members reach [] ≡ some last
      → All (IsSmallThunk branch_range thunk_size) last.thunks
      → (s : State) × (unmarked s ≡ last)
        × IsLaidOut branch_range thunk_size symbols members reach s
        × (length members ≤ s.b)
  holds last target fits h smallt =
      let (s, looped, done) = ends [] in
      let same : unmarked s ≡ last = some_inj (sym done ∙ h) in
      let (laid, over) =
        loop_holds branch_range thunk_size symbols members reach (length members) (first []) s
          target looped
          (subst (λ (u : State). All (IsSmallThunk branch_range thunk_size) u.thunks) (sym same)
            smallt)
          (first_holds fits) in
      (s, same, laid, over)

-- Whatever the section is, the loop of `create_thunks` ends.
pub create_thunks-total :
    (branch_range thunk_size : ℕ) (symbols : ℕ → Symbol) (members : List Isec) (reach : Reach)
    (marks : List ℕ)
    → (last : State) × (create_thunks branch_range thunk_size symbols members reach marks
        ≡ some last)
create_thunks-total branch_range thunk_size symbols members reach marks =
    let (s, looped, done) = ends branch_range thunk_size symbols members reach marks in
    (unmarked branch_range thunk_size symbols members reach s, done)

-- For a branch that reaches at least 16 MiB and at most 2 GiB each way, entries of some size, members
-- of at most 8 MiB aligned to at most 2^15, a section that fits in 32 bits with room for a thunk per
-- member, no symbol marked at first, and thunks that come out at no more than 1 MiB: every function
-- call without an addend from within a member to a symbol that has no stub and lies in a member of
-- the section is within reach of the symbol or of an entry for it in a thunk.
pub create_thunks-Serves :
    (branch_range thunk_size : ℕ) (symbols : ℕ → Symbol) (members : List Isec) (reach : Reach)
    (last : State) (i : ℕ) (isec : Isec) (k : ℕ) (rel : Rel) (id f j : ℕ)
    → IsTarget branch_range thunk_size symbols members
    → room members + length members * thunk_room < 0xffffffff
    → create_thunks branch_range thunk_size symbols members reach [] ≡ some last
    → All (IsSmallThunk branch_range thunk_size) last.thunks
    → get_elem? members i ≡ some isec
    → get_elem? isec.rels k ≡ some rel
    → IsBranch rel id
    → rel.offset ≤ isec.size
    → IsOwn (symbols id) f j
    → j < length members
    → Serves branch_range thunk_size symbols members reach last.starts last.thunks
        (offset_at last.starts i + rel.offset)
        id
        j
create_thunks-Serves branch_range thunk_size symbols members reach last i isec k rel id f j target
      fits h smallt nth at branch inside own hj =
    let (s, same, laid, over) =
      holds branch_range thunk_size symbols members reach last target fits h smallt in
    subst
      (λ (u : State).
        Serves branch_range thunk_size symbols members reach u.starts u.thunks
          (offset_at u.starts i + rel.offset) id j)
      same
      (laid.served i isec k rel id f j (omega (arith, over, get_elem?-in members i isec nth)) nth at
        branch inside own hj)

-- For a branch that reaches at least 16 MiB and at most 2 GiB each way, entries of some size, members
-- of at most 8 MiB aligned to at most 2^15, a section that fits in 32 bits with room for a thunk per
-- member, no symbol marked at first, and thunks that come out at no more than 1 MiB: all the members
-- are placed, in their order, none overlaps another, and no member and no thunk goes beyond the
-- section's size.
pub create_thunks-IsLaid :
    (branch_range thunk_size : ℕ) (symbols : ℕ → Symbol) (members : List Isec) (reach : Reach)
    (last : State)
    → IsTarget branch_range thunk_size symbols members
    → room members + length members * thunk_room < 0xffffffff
    → create_thunks branch_range thunk_size symbols members reach [] ≡ some last
    → All (IsSmallThunk branch_range thunk_size) last.thunks
    → (length last.starts ≡ length members)
      × IsLaid members last.starts last.offset
      × All (EndsBy branch_range thunk_size last.offset) last.thunks
create_thunks-IsLaid branch_range thunk_size symbols members reach last target fits h smallt =
    let (s, same, laid, over) =
      holds branch_range thunk_size symbols members reach last target fits h smallt in
    subst
      (λ (u : State).
        (length u.starts ≡ length members)
        × IsLaid members u.starts u.offset
        × All (EndsBy branch_range thunk_size u.offset) u.thunks)
      same
      (
        omega (arith, over, laid.valid.b_le, laid.valid.laid.count),
        laid.valid.laid,
        laid.valid.ended,
      )

-- For a branch that reaches at least 16 MiB and at most 2 GiB each way, entries of some size, members
-- of at most 8 MiB aligned to at most 2^15, a section that fits in 32 bits with room for a thunk per
-- member, no symbol marked at first, and thunks that come out at no more than 1 MiB: no symbol is
-- left marked.
pub create_thunks-unmarked :
    (branch_range thunk_size : ℕ) (symbols : ℕ → Symbol) (members : List Isec) (reach : Reach)
    (last : State) (id : ℕ)
    → IsTarget branch_range thunk_size symbols members
    → room members + length members * thunk_room < 0xffffffff
    → create_thunks branch_range thunk_size symbols members reach [] ≡ some last
    → All (IsSmallThunk branch_range thunk_size) last.thunks
    → is_marked id last.marks ≡ false
create_thunks-unmarked branch_range thunk_size symbols members reach last id target fits h smallt =
    let (s, same, laid, over) =
      holds branch_range thunk_size symbols members reach last target fits h smallt in
    subst (λ (u : State). is_marked id u.marks ≡ false) same
      (unmark_thunks-none (drop s.t s.thunks) s.marks laid.valid.held id)
