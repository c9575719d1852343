-- ===== src/Thunks/Valid.antt =====
-- What holds of the variables of `create_thunks` of macho/thunks.rs from round to round.
use mold_macho.Prelude.{
  List, inl, ◌∷◌, ◌≤◌, drop, true, inr, ◌<◌, ℕ, ◌+◌, arith, ◌++◌, ◌*◌, ◌≡◌, ◌-◌, length-append,
  length, ◌⊎◌, [], sym, ◌^◌, refl, append-nil,
}
use mold_macho.Prelude.Bytes.{All, All-append, All-get_elem?, All-drop}
use mold_macho.Prelude.Slices.{drop_append_le, get_elem?-append, get_elem?-append_here}
use mold_macho.Thunks.{State, Placed, add_thunk}
use mold_macho.Thunks.Data.{Thunk, Isec, is_marked, max_thunk_size, thunk_align, offset_at}
use mold_macho.Thunks.Layout.{IsLaid, room, Near}
use mold_macho.Thunks.Marks.{Entry, Held, IsAscending, is_marked-get_elem?}
use mold_macho.Thunks.Offsets.{align_to-near}
use mold_macho.Util.Align.{align_to}

abbrev pub thunk_room : ℕ
thunk_room = 1048592

IsLaid-later :
    (members : List Isec) (starts : List ℕ) (low high : ℕ)
    → IsLaid members starts low
    → low ≤ high
    → IsLaid members starts high
IsLaid-later members starts low high h le = record {
  count = h.count;
  ordered = h.ordered;
  ends = λ i hi. omega (arith, h.ends i hi);
}

module _ (branch_range thunk_size : ℕ) where
  -- A thunk whose entries the assertion of `create_thunks` allows.
  abbrev pub IsSmallThunk : Thunk → Type 0
  IsSmallThunk u = length u.syms * thunk_size ≤ max_thunk_size

  abbrev pub EndsBy : ℕ → Thunk → Type 0
  EndsBy offset u = u.offset + length u.syms * thunk_size ≤ offset

  pub record IsValid (members : List Isec) (s : State) : Type 0 where
    pub laid : IsLaid members s.starts s.offset
    pub a_le : s.a ≤ s.b
    pub b_le : s.b ≤ length s.starts
    pub near : Near branch_range members s.b s.starts s.offset
    pub ended : All (EndsBy s.offset) s.thunks
    pub ascending : IsAscending s.thunks
    pub t_le : s.t ≤ length s.thunks
    pub held : Held s.marks (drop s.t s.thunks)
    pub fits :
        s.offset + room (drop (length s.starts) members) + (length members - s.b) * thunk_room
        < 0xffffffff

  pub ended_later :
      (low high : ℕ) (thunks : List Thunk)
      → low ≤ high
      → All (EndsBy low) thunks
      → All (EndsBy high) thunks
  ended_later low high [] le h = tt
  ended_later low high (u ∷ thunks) le (h, hs) = (omega arith, ended_later low high thunks le hs)

  IsAscending-append :
      (thunks : List Thunk) (u : Thunk)
      → IsAscending thunks
      → All (EndsBy u.offset) thunks
      → IsAscending (thunks ++ u ∷ [])
  IsAscending-append [] u h ended = (tt, tt)
  IsAscending-append (v ∷ thunks) u (above, h) (end, ends) = (
    All-append (λ w. v.offset ≤ w.offset) thunks (u ∷ []) above (omega arith, tt),
    IsAscending-append thunks u h ends,
  )

  Held-append :
      (marks syms : List ℕ) (offset : ℕ) (thunks : List Thunk)
      → ((id : ℕ) → is_marked id marks ≡ true → Entry id thunks ⊎ (is_marked id syms ≡ true))
      → Held marks (thunks ++ record { offset = offset; syms = syms } ∷ [])
  Held-append marks syms offset thunks claims id h = elim (claims id h) [
    | inl entry ↦ record {
      nth = entry.nth;
      thunk = entry.thunk;
      at_nth =
          get_elem?-append thunks (record { offset = offset; syms = syms } ∷ []) entry.nth
            entry.thunk entry.at_nth;
      place = entry.place;
      at_place = entry.at_place;
    }
    | inr new ↦
        let (place, at) = is_marked-get_elem? id syms new in
        record {
          nth = length thunks;
          thunk = record { offset = offset; syms = syms };
          at_nth = get_elem?-append_here thunks [] (record { offset = offset; syms = syms });
          place = place;
          at_place = at;
        }
  ]

  -- The next variables, from what moving D, pruning and scanning give.
  pub add_thunk-IsValid :
      (members : List Isec) (placed : Placed) (thunks : List Thunk) (syms marks : List ℕ)
      (a b c t : ℕ)
      → IsLaid members placed.starts placed.offset
      → a ≤ c
      → b < c
      → c ≤ length placed.starts
      → Near branch_range members b placed.starts placed.offset
      → (c < length placed.starts
          → offset_at placed.starts b + thunk_room ≤ offset_at placed.starts c)
      → All (EndsBy placed.offset) thunks
      → IsAscending thunks
      → t ≤ length thunks
      → ((id : ℕ)
          → is_marked id marks ≡ true
          → Entry id (drop t thunks) ⊎ (is_marked id syms ≡ true))
      → placed.offset
          + room (drop (length placed.starts) members)
          + (length members - b) * thunk_room
        < 0xffffffff
      → All IsSmallThunk (add_thunk thunk_size placed thunks syms marks a c t).thunks
      → IsValid members (add_thunk thunk_size placed thunks syms marks a c t)
  unfolding add_thunk is_marked
  add_thunk-IsValid members placed thunks [] marks a b c t laid ac bc cd near gap ended ascending tl
        claims fits small =
      record {
        laid = laid;
        a_le = ac;
        b_le = cd;
        near = λ h. omega (arith, near (omega arith), gap h);
        ended = ended;
        ascending = ascending;
        t_le = tl;
        held = λ id h. elim (claims id h) [
          | inl entry ↦ entry
          | inr unclaimed ↦ absurd (ground arith)
        ];
        fits = omega (arith, laid.count);
      }
  add_thunk-IsValid members placed thunks (id ∷ syms) marks a b c t laid ac bc cd near gap ended
        ascending tl claims fits small =
      let start = align_to placed.offset thunk_align in
      let u : Thunk = record { offset = start; syms = id ∷ syms } in
      let by = align_to-near 4 placed.offset (omega arith) (omega arith) in
      let size : length (id ∷ syms) * thunk_size ≤ max_thunk_size =
        All-get_elem? IsSmallThunk (thunks ++ u ∷ []) (length thunks) u small
          (get_elem?-append_here thunks [] u) in
      let end = start + length (id ∷ syms) * thunk_size in
      let by' = align_to-near 4 end (omega arith) (omega arith) in
      record {
        laid = IsLaid-later members placed.starts placed.offset end laid (omega arith);
        a_le = ac;
        b_le = cd;
        near = λ h. omega (arith, near (omega arith), gap h);
        ended =
            All-append (EndsBy end) thunks (u ∷ [])
              (ended_later placed.offset end thunks (omega arith) ended) (omega arith, tt);
        ascending =
            IsAscending-append thunks u ascending
              (ended_later placed.offset start thunks by.0 ended);
        t_le = omega (arith, length-append thunks (u ∷ []));
        held =
            rw (drop_append_le t thunks (u ∷ []) tl)
              (Held-append marks (id ∷ syms) start (drop t thunks) claims);
        fits = omega (arith, laid.count);
      }

  -- The entries of a thunk that a batch at the offsets from `low` to `high` uses.
  abbrev pub Spans : ℕ → ℕ → Thunk → Type 0
  Spans low high u = (low ≤ u.offset) × (u.offset + length u.syms * thunk_size ≤ high)

  spans :
      (low high offset : ℕ) (thunks : List Thunk)
      → All (λ u. low ≤ u.offset) thunks
      → All (EndsBy offset) thunks
      → offset ≤ high
      → All (Spans low high) thunks
  spans low high offset [] above ended le = tt
  spans low high offset (u ∷ thunks) (h, above) (h', ended) le =
      ((h, omega arith), spans low high offset thunks above ended le)

  -- The thunks that are kept, and the new one, lie between A and what the batch's start reaches.
  pub add_thunk-Spans :
      (placed : Placed) (thunks : List Thunk) (syms marks : List ℕ) (a c t low high : ℕ)
      → low ≤ placed.offset
      → placed.offset < 2 ^ 32
      → align_to placed.offset thunk_align + max_thunk_size ≤ high
      → All (EndsBy placed.offset) thunks
      → t ≤ length thunks
      → All (λ u. low ≤ u.offset) (drop t thunks)
      → All IsSmallThunk (add_thunk thunk_size placed thunks syms marks a c t).thunks
      → All (Spans low high) (drop t (add_thunk thunk_size placed thunks syms marks a c t).thunks)
  unfolding add_thunk
  add_thunk-Spans placed thunks [] marks a c t low high le fits near ended tl above small =
      let by = align_to-near 4 placed.offset (omega arith) (omega arith) in
      spans low high placed.offset (drop t thunks) above
        (All-drop (EndsBy placed.offset) t thunks ended) (omega arith)
  add_thunk-Spans placed thunks (id ∷ syms) marks a c t low high le fits near ended tl above small =
      let start = align_to placed.offset thunk_align in
      let u : Thunk = record { offset = start; syms = id ∷ syms } in
      let by = align_to-near 4 placed.offset (omega arith) (omega arith) in
      let size : length (id ∷ syms) * thunk_size ≤ max_thunk_size =
        All-get_elem? IsSmallThunk (thunks ++ u ∷ []) (length thunks) u small
          (get_elem?-append_here thunks [] u) in
      rw (drop_append_le t thunks (u ∷ []) tl) (
        All-append (Spans low high) (drop t thunks) (u ∷ [])
          (spans low high placed.offset (drop t thunks) above
            (All-drop (EndsBy placed.offset) t thunks ended) (omega arith))
          ((omega arith, omega arith), tt))

  -- What a round leaves of the thunks and the other variables.
  pub add_thunk-fields :
      (placed : Placed) (thunks : List Thunk) (syms marks : List ℕ) (a c t : ℕ)
      → let s = add_thunk thunk_size placed thunks syms marks a c t in
        (s.starts ≡ placed.starts)
        × (s.b ≡ c)
        × (s.t ≡ t)
        × (s.marks ≡ marks)
        × (more : List Thunk) × (s.thunks ≡ thunks ++ more)
  unfolding add_thunk
  add_thunk-fields placed thunks [] marks a c t =
      (refl, refl, refl, refl, [], sym (append-nil thunks))
  add_thunk-fields placed thunks (id ∷ syms) marks a c t = (refl, refl, refl, refl, _, refl)
