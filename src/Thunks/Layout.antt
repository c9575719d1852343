-- ===== src/Thunks/Layout.antt =====
-- Where `place_members` of macho/thunks.rs puts the members of a code section.
use mold_macho.Prelude.{
  List, ◌++◌, dec_lt, ◌+◌, [], ◌∷◌, arith, ◌≡◌, length-append, length, ◌≤◌, ℕ, ◌%◌, ◌^◌, ◌<◌, false,
  not, Bool-cases, ◌==◌, inr, sym, ltb, ◌&&◌, append-nil, drop, inl, ◌∙◌, append_assoc, ◌-◌, suc,
  length-drop, ap, some, get_elem?, zero,
}
use mold_macho.Prelude.Bytes.{All}
use mold_macho.Prelude.Fallible.{some_inj}
use mold_macho.Thunks.{Placed, place_members}
use mold_macho.Thunks.Data.{max_thunk_size, thunk_align, size_at, offset_at, Isec, align_offset}
use mold_macho.Thunks.Offsets.{
  align_to-near, align_offset-near, offset_at-append, offset_at-last, size_at-drop,
}
use mold_macho.Thunks.Scan.{distance}
use mold_macho.Util.Align.{align_to}
use native.Mathlib.Nat.{mod-eq_of_lt}

-- A subsection of at most 8 MiB, aligned to at most 2^15 as Mach-O allows.
abbrev pub IsSmall : Isec → Type 0
IsSmall isec = (isec.size ≤ 8388608) × (isec.p2align ≤ 15)

-- The room that members take at most.
unfoldable pub room : List Isec → ℕ
room [] = 0
room (isec ∷ rest) = 2 ^ isec.p2align + isec.size + room rest

-- The members that are placed, in their order and below the offset, none overlapping the next.
pub record IsLaid (members : List Isec) (starts : List ℕ) (offset : ℕ) : Type 0 where
  pub count : length starts ≤ length members
  pub ordered :
      (i j : ℕ)
      → i < j
      → j < length starts
      → offset_at starts i + size_at members i ≤ offset_at starts j
  pub ends : (i : ℕ) → i < length starts → offset_at starts i + size_at members i ≤ offset

-- One more member.
IsLaid-more :
    (members : List Isec) (starts : List ℕ) (offset start : ℕ)
    → IsLaid members starts offset
    → length starts < length members
    → offset ≤ start
    → start < 2 ^ 32
    → IsLaid members (starts ++ start % 2 ^ 32 ∷ []) (start + size_at members (length starts))
IsLaid-more members starts offset start h room le small =
    let e : start % 2 ^ 32 ≡ start = mod-eq_of_lt small in
    rw e record {
      count = omega (arith, length-append starts (start ∷ []));
      ordered = λ i j lt hj. elim (dec_lt j (length starts)) [
        | yes old ↦
            rw
              (
                offset_at-append starts (start ∷ []) i (omega arith),
                offset_at-append starts (start ∷ []) j old,
              )
              (h.ordered i j lt old)
        | no new ↦
            let last : j ≡ length starts = omega (arith, length-append starts (start ∷ [])) in
            rw
              (
                last,
                offset_at-last starts start,
                offset_at-append starts (start ∷ []) i (omega arith),
              )
              (omega (arith, h.ends i (omega arith)))
      ];
      ends = λ i hi. elim (dec_lt i (length starts)) [
        | yes old ↦ rw (offset_at-append starts (start ∷ []) i old) (omega (arith, h.ends i old))
        | no new ↦
            let last : i ≡ length starts = omega (arith, length-append starts (start ∷ [])) in
            rw (last, offset_at-last starts start) (omega arith)
      ];
    }

module _ (branch_range : ℕ) (members : List Isec) (b : ℕ) where
  -- A thunk at the offset stays within reach of the member `b`.
  abbrev pub Near : List ℕ → ℕ → Type 0
  Near starts offset =
      b < length starts
      → align_to offset thunk_align + max_thunk_size ≤ offset_at starts b + distance branch_range

  -- What the loop that moves D leaves.
  pub record IsMoved (s s' : Placed) : Type 0 where
    pub laid : IsLaid members s'.starts s'.offset
    pub more : List ℕ
    pub extends : s'.starts ≡ s.starts ++ more
    pub fits :
        s'.offset + room (drop (length s'.starts) members)
        ≤ s.offset + room (drop (length s.starts) members)
    pub near : Near s'.starts s'.offset
    pub grows : s.offset ≤ s'.offset
    pub past : b < length members → b < length s'.starts

  Near-more :
      (starts : List ℕ) (start size : ℕ)
      → 16777216 ≤ distance branch_range
      → b ≤ length starts
      → start + size < 2 ^ 32
      → size ≤ 8388608
      → (not (b == length starts)
          && ltb
              (offset_at starts b + distance branch_range)
              (align_to (start + size) thunk_align + max_thunk_size))
        ≡ false
      → Near (starts ++ start % 2 ^ 32 ∷ []) (start + size)
  Near-more starts start size hd hb fits small test past =
      let e : start % 2 ^ 32 ≡ start = mod-eq_of_lt (omega arith) in
      let near = align_to-near 4 (start + size) (omega arith) (omega arith) in
      elim (dec_lt b (length starts)) [
        | yes old ↦ rw (e, offset_at-append starts (start ∷ []) b old) (ground arith)
        | no new ↦
            let last : b ≡ length starts = omega arith in
            rw (e, last, offset_at-last starts start) (omega (arith, near))
      ]

  stay :
      (s : Placed)
      → IsLaid members s.starts s.offset
      → Near s.starts s.offset
      → (b < length members → b < length s.starts)
      → IsMoved s s
  stay s laid near past = record {
    laid = laid;
    more = [];
    extends = sym (append-nil s.starts);
    fits = omega arith;
    near = near;
    grows = omega arith;
    past = past;
  }

  one_more :
      (s s' : Placed) (start offset : ℕ)
      → IsMoved (record { starts = s.starts ++ start ∷ []; offset = offset }) s'
      → offset + room (drop (length (s.starts ++ start ∷ [])) members)
        ≤ s.offset + room (drop (length s.starts) members)
      → s.offset ≤ offset
      → IsMoved s s'
  one_more s s' start offset h less le = record {
    laid = h.laid;
    more = start ∷ h.more;
    extends = h.extends ∙ append_assoc s.starts (start ∷ []) h.more;
    fits = omega (arith, h.fits);
    near = h.near;
    grows = omega (arith, h.grows);
    past = h.past;
  }

  -- Those who have a member left have it at D.
  next_member :
      (isec : Isec) (rest : List Isec) (starts : List ℕ) (start : ℕ)
      → isec ∷ rest ≡ drop (length starts) members
      → (size_at members (length starts) ≡ isec.size)
        × (rest ≡ drop (length (starts ++ start ∷ [])) members)
        × (length starts < length members)
  next_member isec rest starts start same =
      let (size, after) = size_at-drop members (length starts) isec rest (sym same) in
      let e : length (starts ++ start ∷ []) ≡ suc (length starts) =
        omega (arith, length-append starts (start ∷ [])) in
      let left : suc (length rest) ≡ length members - length starts =
        ap length same ∙ length-drop (length starts) members in
      (size, rw e (sym after), omega arith)

  pub place_members-IsMoved :
      (rest : List Isec) (s : Placed)
      → 16777216 ≤ distance branch_range
      → rest ≡ drop (length s.starts) members
      → All IsSmall rest
      → IsLaid members s.starts s.offset
      → b ≤ length s.starts
      → Near s.starts s.offset
      → s.offset + room rest < 2 ^ 32
      → IsMoved s (place_members branch_range b rest s)
  unfolding place_members room
  place_members-IsMoved [] s hd same small laid hb near fits =
      let left : 0 ≡ length members - length s.starts =
        ap length same ∙ length-drop (length s.starts) members in
      stay s laid near (λ h. omega arith)
  place_members-IsMoved (isec ∷ rest) s hd same (small, smalls) laid hb near fits =
      let start = align_offset isec s.offset in
      let test =
        not (b == length s.starts)
        && ltb (offset_at s.starts b + distance branch_range)
            (align_to (start + isec.size) thunk_align + max_thunk_size) in
      let (size, after, some_left) = next_member isec rest s.starts (start % 2 ^ 32) same in
      let by = align_offset-near isec s.offset small.1 (omega arith) in
      let next : Placed = record {
        starts = s.starts ++ start % 2 ^ 32 ∷ [];
        offset = start + isec.size;
      } in
      let len : length next.starts ≡ suc (length s.starts) =
        omega (arith, length-append s.starts (start % 2 ^ 32 ∷ [])) in
      elim (Bool-cases test) [
        | inl stop ↦ rw stop (stay s laid near (λ h. ground arith))
        | inr go ↦ rw go (
            one_more s (place_members branch_range b rest next) (start % 2 ^ 32) next.offset
              (place_members-IsMoved rest next hd after smalls
                (rw (← size)
                  (IsLaid-more members s.starts s.offset start laid some_left by.0 (omega arith)))
                (omega arith) (Near-more s.starts start isec.size hd hb (omega arith) small.0 go)
                (omega arith))
              (rw (← after, ← same) (omega arith)) (omega arith))
      ]

pub size_at-small :
    (members : List Isec) (i : ℕ) → All IsSmall members → size_at members i ≤ 8388608
unfolding size_at
size_at-small [] i h = omega arith
size_at-small (isec ∷ members) zero (h, hs) = h.0
size_at-small (isec ∷ members) (suc i) (h, hs) = size_at-small members i hs

pub size_at-get_elem? :
    (members : List Isec) (i : ℕ) (isec : Isec)
    → get_elem? members i ≡ some isec
    → size_at members i ≡ isec.size
unfolding size_at
size_at-get_elem? [] i isec h = absurd cc
size_at-get_elem? (x ∷ members) zero isec h =
    let e : x ≡ isec = some_inj h in ap (λ (i : Isec). i.size) e
size_at-get_elem? (x ∷ members) (suc i) isec h = size_at-get_elem? members i isec h
