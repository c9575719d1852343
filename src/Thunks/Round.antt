-- ===== src/Thunks/Round.antt =====
-- A round of the loop of `create_thunks` of macho/thunks.rs: what it keeps, and that it serves its batch.
use mathlib.Core.Path.{subst}
use mold_macho.Prelude.{
  ◌+◌, ◌⊎◌, true, ◌≡◌, length, List, ℕ, drop, some, ◌≤◌, ◌<◌, take, false, get_elem?, ◌∙◌, ◌-◌,
  arith, sym, ap, inr, inl, length-drop, refl, dec_lt, Bool-cases,
}
use mold_macho.Prelude.Bytes.{All}
use mold_macho.Prelude.Slices.{drop_add, get_elem?-drop, get_elem?-take}
use mold_macho.Thunks.{State, Placed, offset_of_c, aim, scan_from, add_thunk}
use mold_macho.Thunks.Batch.{batch_end-within, batch_end-full, offset_of_c-bounds, next_a-bounds}
use mold_macho.Thunks.Claims.{IsBranch, scan_batch-claims, scan_batch-marks}
use mold_macho.Thunks.Data.{
  Isec, Rel, Symbol, Reach, is_marked, offset_at, max_thunk_size, thunk_align, size_at,
}
use mold_macho.Thunks.Hop.{next_b, c_offset, a_next, kept, found, hop, Hop, IsRound, IsTarget}
use mold_macho.Thunks.Layout.{IsMoved, size_at-small, size_at-get_elem?}
use mold_macho.Thunks.Marks.{Entry, drop-IsAscending}
use mold_macho.Thunks.Offsets.{align_to-near}
use mold_macho.Thunks.Prune.{IsPruned, prune-IsPruned}
use mold_macho.Thunks.Scan.{distance, requires_thunk}
use mold_macho.Thunks.Valid.{
  IsValid, Spans, EndsBy, thunk_room, ended_later, add_thunk-Spans, add_thunk-IsValid,
  add_thunk-fields, IsSmallThunk,
}
use mold_macho.Util.Align.{align_to}

module _ (branch_range thunk_size : ℕ) (symbols : ℕ → Symbol) where
  module _ (members : List Isec) (reach : Reach) (s : State) (placed : Placed)
      (target : IsTarget branch_range thunk_size symbols members) (left : s.b < length members)
      (valid : IsValid branch_range thunk_size members s)
      (moved : IsMoved branch_range members s.b
        (record { starts = s.starts; offset = s.offset })
        placed) where
    abbrev c : ℕ
    c = next_b branch_range thunk_size symbols members reach s placed

    abbrev t' : ℕ
    t' = (kept branch_range thunk_size symbols members reach s placed).1

    abbrev low : ℕ
    low = offset_at placed.starts (a_next branch_range thunk_size symbols members reach s placed)

    abbrev high : ℕ
    high = offset_at placed.starts s.b + distance branch_range

    c-within : (s.b < c) × (c ≤ length placed.starts)
    c-within = batch_end-within members placed.starts s.b (length placed.starts) (moved.past left)

    below : placed.offset < 0xffffffff
    below = omega (arith, moved.fits, valid.fits)

    near : align_to placed.offset thunk_align + max_thunk_size ≤ high
    near = moved.near (moved.past left)

    offset-near : placed.offset ≤ align_to placed.offset thunk_align
    offset-near = (align_to-near 4 placed.offset (omega arith) (omega (arith, below))).0

    c_offset-within :
        (c_offset branch_range thunk_size symbols members reach s placed ≤ placed.offset)
        × ((i : ℕ)
            → i < c
            → offset_at placed.starts i + size_at members i
              ≤ c_offset branch_range thunk_size symbols members reach s placed)
    c_offset-within = offset_of_c-bounds members placed c moved.laid c-within.1

    a-within :
        (a_next branch_range thunk_size symbols members reach s placed ≤ s.b)
        × (c_offset branch_range thunk_size symbols members reach s placed
            ≤ low + distance branch_range)
    a-within =
        next_a-bounds branch_range placed.starts s.a s.b
          (c_offset branch_range thunk_size symbols members reach s placed) valid.a_le
          (omega (arith, c_offset-within.0, near, offset-near))

    pruned :
        IsPruned low
          (drop s.t s.thunks)
          s.t
          (kept branch_range thunk_size symbols members reach s placed)
    pruned =
        prune-IsPruned low (drop s.t s.thunks) s.marks s.t
          (drop-IsAscending s.t s.thunks valid.ascending) valid.held

    t-within : t' ≤ length s.thunks
    t-within = omega (arith, pruned.within, length-drop s.t s.thunks, valid.t_le)

    still : drop (t' - s.t) (drop s.t s.thunks) ≡ drop t' s.thunks
    still =
        let e : s.t + (t' - s.t) ≡ t' = omega (arith, pruned.after) in
        drop_add s.t (t' - s.t) s.thunks ∙ ap (λ n. drop n s.thunks) e

    claims :
        (id : ℕ)
        → is_marked id (found branch_range thunk_size symbols members reach s placed).0 ≡ true
        → Entry id (drop t' s.thunks)
          ⊎ (is_marked id (found branch_range thunk_size symbols members reach s placed).1 ≡ true)
    claims id h =
        elim (scan_batch-claims branch_range symbols placed.starts
          (aim branch_range members reach placed s.b
            (c_offset branch_range thunk_size symbols members reach s placed))
          s.b (take (c - s.b) (drop s.b members))
          (kept branch_range thunk_size symbols members reach s placed).0 id h) [
            | inl old ↦ inl (subst (λ ts. Entry id ts) still (pruned.held id old))
            | inr new ↦ inr new
          ]

    gap :
        c < length placed.starts
        → offset_at placed.starts s.b + thunk_room ≤ offset_at placed.starts c
    gap h = omega (
      arith,
      batch_end-full members placed.starts s.b (length placed.starts) h,
      size_at-small members c target.small,
    )

    ended : All (EndsBy branch_range thunk_size placed.offset) s.thunks
    ended =
        ended_later branch_range thunk_size s.offset placed.offset s.thunks moved.grows valid.ended

    abbrev s' : State
    s' =
        add_thunk thunk_size placed s.thunks
          (found branch_range thunk_size symbols members reach s placed).1
          (found branch_range thunk_size symbols members reach s placed).0
          (a_next branch_range thunk_size symbols members reach s placed) c t'

    same : scan_from branch_range thunk_size symbols members reach s placed ≡ s'
    unfolding scan_from
    same = refl

    module _ (smallt : All (IsSmallThunk branch_range thunk_size) s'.thunks) where
      valid' : IsValid branch_range thunk_size members s'
      valid' =
          add_thunk-IsValid branch_range thunk_size members placed s.thunks
            (found branch_range thunk_size symbols members reach s placed).1
            (found branch_range thunk_size symbols members reach s placed).0
            (a_next branch_range thunk_size symbols members reach s placed) s.b c t' moved.laid
            (omega (arith, a-within, c-within)) c-within.0 c-within.1 moved.near gap ended
            valid.ascending t-within claims (omega (arith, moved.fits, valid.fits)) smallt

      low-le : low ≤ placed.offset
      low-le = omega (
        arith,
        moved.laid.ends (a_next branch_range thunk_size symbols members reach s placed)
            (omega (arith, a-within, c-within)),
      )

      spanned : All (Spans branch_range thunk_size low high) (drop t' s'.thunks)
      spanned =
          add_thunk-Spans branch_range thunk_size placed s.thunks
            (found branch_range thunk_size symbols members reach s placed).1
            (found branch_range thunk_size symbols members reach s placed).0
            (a_next branch_range thunk_size symbols members reach s placed) c t' low high low-le
            (omega (arith, below)) near ended t-within
            (subst (All (λ u. low ≤ u.offset)) still pruned.in_range) smallt

      serve :
          (i : ℕ) (isec : Isec) (k : ℕ) (rel : Rel) (id : ℕ)
          → s.b ≤ i
          → i < c
          → get_elem? members i ≡ some isec
          → get_elem? isec.rels k ≡ some rel
          → IsBranch rel id
          → rel.offset ≤ isec.size
          → requires_thunk branch_range placed.starts
              (aim branch_range members reach placed s.b
                (c_offset branch_range thunk_size symbols members reach s placed))
              (offset_at placed.starts i + rel.offset)
              (symbols id)
            ≡ true
          → Hop branch_range thunk_size symbols id
              (offset_at placed.starts i + rel.offset)
              s'.thunks
      serve i isec k rel id le lt nth at branch inside far =
          let fields =
            add_thunk-fields branch_range thunk_size placed s.thunks
              (found branch_range thunk_size symbols members reach s placed).1
              (found branch_range thunk_size symbols members reach s placed).0
              (a_next branch_range thunk_size symbols members reach s placed) c t' in
          let j : s.b + (i - s.b) ≡ i = omega arith in
          let nth' : get_elem? (take (c - s.b) (drop s.b members)) (i - s.b) ≡ some isec =
            get_elem?-take (c - s.b) (drop s.b members) (i - s.b) (omega arith)
            ∙ get_elem?-drop s.b members (i - s.b)
            ∙ ap (get_elem? members) j
            ∙ nth in
          let marked =
            scan_batch-marks branch_range symbols placed.starts
              (aim branch_range members reach placed s.b
                (c_offset branch_range thunk_size symbols members reach s placed))
              s.b (take (c - s.b) (drop s.b members))
              (kept branch_range thunk_size symbols members reach s placed).0 (i - s.b) isec k rel
              id nth' at branch
              (subst
                (λ n.
                  requires_thunk branch_range placed.starts
                    (aim branch_range members reach placed s.b
                      (c_offset branch_range thunk_size symbols members reach s placed))
                    (offset_at placed.starts n + rel.offset) (symbols id)
                  ≡ true)
                (sym j) far) in
          let entry : Entry id (drop t' s'.thunks) =
            subst (λ n. Entry id (drop n s'.thunks)) fields.2
              (valid'.held id (subst (λ ms. is_marked id ms ≡ true) (sym fields.3) marked)) in
          let p_le : offset_at placed.starts i + rel.offset
              ≤ c_offset branch_range thunk_size symbols members reach s placed =
            omega (arith, c_offset-within.1 i lt, size_at-get_elem? members i isec nth) in
          let p_ge : offset_at placed.starts s.b ≤ offset_at placed.starts i + rel.offset =
            elim (dec_lt s.b i) [
              | yes after ↦ omega (arith, moved.laid.ordered s.b i after (omega (arith, c-within)))
              | no here ↦ let e : s.b ≡ i = omega arith in rw e (omega arith)
            ] in
          hop branch_range thunk_size symbols id (offset_at placed.starts i + rel.offset) low high
            t' s'.thunks target.some_size target.not_too_far
            (omega (arith, moved.laid.ends s.b (moved.past left), below, target.not_too_far))
            (omega (arith, below, c_offset-within.0)) (omega arith) (omega (arith, a-within))
            spanned entry

      pub is_round : IsRound branch_range thunk_size symbols members reach s placed s'
      is_round =
          let fields =
            add_thunk-fields branch_range thunk_size placed s.thunks
              (found branch_range thunk_size symbols members reach s placed).1
              (found branch_range thunk_size symbols members reach s placed).0
              (a_next branch_range thunk_size symbols members reach s placed) c t' in
          record {
            valid = valid';
            moves = rw fields.1 c-within.0;
            starts_same = fields.0;
            more = fields.4;
            thunks_more = fields.5;
            serves = λ i isec k rel id le lt nth at branch inside.
                elim (Bool-cases (
                  requires_thunk branch_range placed.starts
                    (aim branch_range members reach placed s.b
                      (c_offset branch_range thunk_size symbols members reach s placed))
                    (offset_at placed.starts i + rel.offset) (symbols id))) [
                      | inl far ↦ inr (
                          serve i isec k rel id le (subst (λ n. i < n) fields.1 lt) nth at branch
                            inside far)
                      | inr close ↦ inl (
                          subst
                            (λ n.
                              requires_thunk branch_range placed.starts
                                (aim branch_range members reach placed s.b (offset_of_c placed n))
                                (offset_at placed.starts i + rel.offset) (symbols id)
                              ≡ false)
                            (sym fields.1) close)
                    ];
          }
