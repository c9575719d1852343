-- ===== src/Thunks/Reached.antt =====
-- The branches of a section that macho/thunks.rs lays out all reach their targets or an entry.
use mold_macho.Prelude.{
  ℕ, false, ◌⊎◌, length, get_elem?, ◌≡◌, arith, ◌≤◌, true, some, ◌+◌, List, ◌<◌, sym, ◌==◌, refl,
  dec_lt, not, if◌then◌else◌, length-append, inr, ◌++◌, inl,
}
use mold_macho.Prelude.Slices.{get_elem?-append}
use mold_macho.Thunks.{State, Placed, aim, offset_of_c}
use mold_macho.Thunks.Claims.{IsBranch}
use mold_macho.Thunks.Data.{Thunk, Isec, Rel, Symbol, Reach, obj, member, offset_at, unplaced}
use mold_macho.Thunks.Hop.{IsRound, Hop, c_offset}
use mold_macho.Thunks.Layout.{IsLaid, IsMoved}
use mold_macho.Thunks.Offsets.{offset_at-append, offset_at-beyond}
use mold_macho.Thunks.Scan.{distance, in_reach, requires_thunk, by_side}

-- A symbol of the section that is laid out, called directly.
abbrev pub IsOwn : Symbol → ℕ → ℕ → Type 0
IsOwn sym f j =
    (sym.has_stub ≡ false) × (sym.file ≡ some (obj f)) × (sym.input_section ≡ some (member j))

module _ (branch_range thunk_size : ℕ) (symbols : ℕ → Symbol) (members : List Isec)
    (reach : Reach) where
  -- A branch at `p` to a symbol in member `j` reaches it, or reaches an entry for it.
  abbrev pub Serves : List ℕ → List Thunk → ℕ → ℕ → ℕ → Type 0
  Serves starts thunks p id j =
      (j < length starts)
        × (in_reach (distance branch_range) (offset_at starts j + (symbols id).value) p ≡ true)
      ⊎ Hop branch_range thunk_size symbols id p thunks

  -- The branches of the members before `b` to symbols of the section.
  abbrev pub AreServed : List ℕ → List Thunk → ℕ → Type 0
  AreServed starts thunks b =
      (i : ℕ) (isec : Isec) (k : ℕ) (rel : Rel) (id f j : ℕ)
      → i < b
      → get_elem? members i ≡ some isec
      → get_elem? isec.rels k ≡ some rel
      → IsBranch rel id
      → rel.offset ≤ isec.size
      → IsOwn (symbols id) f j
      → j < length members
      → Serves starts thunks (offset_at starts i + rel.offset) id j

  aim-forward :
      (placed : Placed) (b c_offset : ℕ)
      → (aim branch_range members reach placed b c_offset).forward ≡ true
      → length placed.starts ≡ length members
  unfolding aim
  aim-forward placed b c_offset h = ground arith

  requires_thunk-own :
      (starts : List ℕ) (reach' : Reach) (p : ℕ) (sym' : Symbol) (f j : ℕ)
      → IsOwn sym' f j
      → requires_thunk branch_range starts reach' p sym' ≡ (
          if offset_at starts j == unplaced
          then not reach'.forward
          else not (in_reach (distance branch_range) (offset_at starts j + sym'.value) p))
  unfolding requires_thunk by_side
  requires_thunk-own starts reach' p sym' f j (nostub, file, place) = rw (nostub, file, place) refl

  own-close :
      (placed : Placed) (b c_offset p id f j : ℕ)
      → IsLaid members placed.starts placed.offset
      → placed.offset < 0xffffffff
      → IsOwn (symbols id) f j
      → j < length members
      → requires_thunk branch_range placed.starts
          (aim branch_range members reach placed b c_offset)
          p
          (symbols id)
        ≡ false
      → (j < length placed.starts)
        × (in_reach (distance branch_range) (offset_at placed.starts j + (symbols id).value) p
            ≡ true)
  own-close placed b c_offset p id f j laid small own hj close =
      let reach' = aim branch_range members reach placed b c_offset in
      let test = requires_thunk-own placed.starts reach' p (symbols id) f j own in
      elim (dec_lt j (length placed.starts)) [
        | yes here ↦
            let off = laid.ends j here in
            let e : (offset_at placed.starts j == unplaced) ≡ false = ground arith in
            (here, ground arith)
        | no beyond ↦
            let e : (offset_at placed.starts j == unplaced) ≡ true =
              rw (offset_at-beyond placed.starts j (omega arith)) refl in
            let full = aim-forward placed b c_offset (ground arith) in absurd (omega arith)
      ]

  Hop-later :
      (id p : ℕ) (thunks more : List Thunk)
      → Hop branch_range thunk_size symbols id p thunks
      → Hop branch_range thunk_size symbols id p (thunks ++ more)
  Hop-later id p thunks more (entry, near) = (
    record {
      nth = entry.nth;
      thunk = entry.thunk;
      at_nth = get_elem?-append thunks more entry.nth entry.thunk entry.at_nth;
      place = entry.place;
      at_place = entry.at_place;
    },
    near,
  )

  Serves-later :
      (starts more_starts : List ℕ) (thunks more : List Thunk) (p id j : ℕ)
      → Serves starts thunks p id j
      → Serves (starts ++ more_starts) (thunks ++ more) p id j
  Serves-later starts more_starts thunks more p id j (inl (here, near)) = inl (
    omega (arith, length-append starts more_starts),
    rw (offset_at-append starts more_starts j here) near,
  )
  Serves-later starts more_starts thunks more p id j (inr hop) =
      inr (Hop-later id p thunks more hop)

  pub served_round :
      (s : State) (placed : Placed) (s' : State)
      → s.b ≤ length s.starts
      → IsMoved branch_range members s.b (record { starts = s.starts; offset = s.offset }) placed
      → placed.offset < 0xffffffff
      → IsRound branch_range thunk_size symbols members reach s placed s'
      → AreServed s.starts s.thunks s.b
      → AreServed s'.starts s'.thunks s'.b
  served_round s placed s' le moved small round served i isec k rel id f j lt nth at branch inside
        own hj =
      elim (dec_lt i s.b) [
        | yes before ↦
            rw
              (
                round.starts_same,
                round.thunks_more,
                moved.extends,
                offset_at-append s.starts moved.more i (omega arith),
              )
              (Serves-later s.starts moved.more s.thunks round.more
                (offset_at s.starts i + rel.offset) id j
                (served i isec k rel id f j before nth at branch inside own hj))
        | no now ↦
            rw round.starts_same
              elim (round.serves i isec k rel id (omega arith) lt nth at branch inside) [
                | inl close ↦ inl (
                    own-close placed s.b (offset_of_c placed s'.b)
                      (offset_at placed.starts i + rel.offset) id f j moved.laid small own hj close)
                | inr hop ↦ inr hop
              ]
      ]
