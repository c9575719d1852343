-- ===== src/Thunks/Loop.antt =====
-- The loop of `create_thunks` of macho/thunks.rs: it ends, and what holds when it does.
use mathlib.Core.Path.{subst}
use mold_macho.Prelude.{
  some, refl, drop, dec_lt, length, ◌+◌, ℕ, suc, lt→ltb, ◌++◌, ◌≤◌, ◌≡◌, List, arith, ge→ltb, zero,
  ◌<◌, append_assoc, ◌∙◌, none, sym, ap, [], append-nil, ◌≢◌, ◌∷◌,
}
use mold_macho.Prelude.Bytes.{All, All-drop}
use mold_macho.Prelude.Fallible.{some_inj}
use mold_macho.Thunks.{State, Placed, scan_from, step, place_members, create_loop, batch_end}
use mold_macho.Thunks.Data.{Thunk, Isec, Symbol, Reach}
use mold_macho.Thunks.Hop.{IsTarget}
use mold_macho.Thunks.Layout.{IsSmall, place_members-IsMoved}
use mold_macho.Thunks.Reached.{AreServed, served_round}
use mold_macho.Thunks.Round.{is_round}
use mold_macho.Thunks.Valid.{IsValid, IsSmallThunk, add_thunk-fields}

module _ (branch_range thunk_size : ℕ) (symbols : ℕ → Symbol) (members : List Isec)
    (reach : Reach) where
  abbrev placed_of : State → Placed
  placed_of s =
      place_members branch_range s.b (drop (length s.starts) members)
        (record { starts = s.starts; offset = s.offset })

  scan_from-fields :
      (s : State) (placed : Placed)
      → let s' = scan_from branch_range thunk_size symbols members reach s placed in
        (s.b < s'.b) × (more : List Thunk) × (s'.thunks ≡ s.thunks ++ more)
  unfolding scan_from batch_end
  scan_from-fields s placed =
      let fields = add_thunk-fields branch_range thunk_size placed s.thunks _ _ _ _ _ in
      (rw fields.1 (omega arith), fields.4, fields.5)

  -- Whatever the target and the members are, a round goes on by a member at least.
  step_moves : (s : State) → s.b < (step branch_range thunk_size symbols members reach s).b
  unfolding step
  step_moves s = (scan_from-fields s (placed_of s)).0

  step_more :
      (s : State)
      → (more : List Thunk) × ((step branch_range thunk_size symbols members reach s).thunks
          ≡ s.thunks ++ more)
  unfolding step
  step_more s = let (moves, more, e) = scan_from-fields s (placed_of s) in (more, e)

  loop_on :
      (fuel : ℕ) (s : State)
      → s.b < length members
      → create_loop branch_range thunk_size symbols (suc fuel) members reach s
        ≡ create_loop branch_range thunk_size symbols fuel members reach
            (step branch_range thunk_size symbols members reach s)
  unfolding create_loop
  loop_on fuel s left = rw (lt→ltb s.b (length members) left) refl

  loop_off :
      (fuel : ℕ) (s : State)
      → length members ≤ s.b
      → create_loop branch_range thunk_size symbols fuel members reach s ≡ some s
  unfolding create_loop
  loop_off zero s ended = rw (ge→ltb s.b (length members) ended) refl
  loop_off (suc fuel) s ended = rw (ge→ltb s.b (length members) ended) refl

  loop_out :
      (s : State)
      → s.b < length members
      → create_loop branch_range thunk_size symbols zero members reach s ≡ none
  unfolding create_loop
  loop_out s left = rw (lt→ltb s.b (length members) left) refl

  pub loop_total :
      (fuel : ℕ) (s : State)
      → length members ≤ s.b + fuel
      → (last : State) × (create_loop branch_range thunk_size symbols fuel members reach s
          ≡ some last)
  loop_total zero s h = (s, loop_off zero s (omega arith))
  loop_total (suc fuel) s h = elim (dec_lt s.b (length members)) [
    | yes left ↦
        let (last, e) =
          loop_total fuel (step branch_range thunk_size symbols members reach s)
            (omega (arith, step_moves s)) in
        (last, loop_on fuel s left ∙ e)
    | no ended ↦ (s, loop_off (suc fuel) s (omega arith))
  ]

  loop_end :
      (fuel : ℕ) (s last : State)
      → length members ≤ s.b
      → create_loop branch_range thunk_size symbols fuel members reach s ≡ some last
      → s ≡ last
  loop_end fuel s last ended h = some_inj (sym (loop_off fuel s ended) ∙ h)

  loop_next :
      (fuel : ℕ) (s last : State)
      → s.b < length members
      → create_loop branch_range thunk_size symbols (suc fuel) members reach s ≡ some last
      → create_loop branch_range thunk_size symbols fuel members reach
          (step branch_range thunk_size symbols members reach s)
        ≡ some last
  loop_next fuel s last left h = sym (loop_on fuel s left) ∙ h

  loop_left :
      (s last : State)
      → s.b < length members
      → create_loop branch_range thunk_size symbols zero members reach s ≢ some last
  loop_left s last left h = let e : none ≡ some last = sym (loop_out s left) ∙ h in absurd cc

  -- The thunks that are there stay.
  same_thunks : (s last : State) → s ≡ last → (more : List Thunk) × (last.thunks ≡ s.thunks ++ more)
  same_thunks s last e = ([], ap (λ (u : State). u.thunks) (sym e) ∙ sym (append-nil s.thunks))

  loop_more :
      (fuel : ℕ) (s last : State)
      → create_loop branch_range thunk_size symbols fuel members reach s ≡ some last
      → (more : List Thunk) × (last.thunks ≡ s.thunks ++ more)
  loop_more zero s last h = elim (dec_lt s.b (length members)) [
    | yes left ↦ absurd (loop_left s last left h)
    | no ended ↦ same_thunks s last (loop_end zero s last (omega arith) h)
  ]
  loop_more (suc fuel) s last h = elim (dec_lt s.b (length members)) [
    | yes left ↦
        let (more, e) = step_more s in
        let (more', e') =
          loop_more fuel (step branch_range thunk_size symbols members reach s) last
            (loop_next fuel s last left h) in
        (more ++ more', e' ∙ ap (λ ts. ts ++ more') e ∙ append_assoc s.thunks more more')
    | no ended ↦ same_thunks s last (loop_end (suc fuel) s last (omega arith) h)
  ]

  -- What holds when the loop ends.
  pub record IsLaidOut (s : State) : Type 0 where
    pub valid : IsValid branch_range thunk_size members s
    pub served : AreServed branch_range thunk_size symbols members reach s.starts s.thunks s.b

  step_holds :
      (s : State)
      → IsTarget branch_range thunk_size symbols members
      → s.b < length members
      → All
          (IsSmallThunk branch_range thunk_size)
          (step branch_range thunk_size symbols members reach s).thunks
      → IsLaidOut s
      → IsLaidOut (step branch_range thunk_size symbols members reach s)
  unfolding step scan_from
  step_holds s target left smallt h =
      let moved =
        place_members-IsMoved branch_range members s.b (drop (length s.starts) members)
          (record { starts = s.starts; offset = s.offset }) target.far refl
          (All-drop IsSmall (length s.starts) members target.small) h.valid.laid h.valid.b_le
          h.valid.near (omega (arith, h.valid.fits)) in
      let round =
        is_round branch_range thunk_size symbols members reach s (placed_of s) target left h.valid
          moved smallt in
      record {
        valid = round.valid;
        served =
            served_round branch_range thunk_size symbols members reach s (placed_of s)
              (step branch_range thunk_size symbols members reach s) h.valid.b_le moved
              (omega (arith, moved.fits, h.valid.fits)) round h.served;
      }

  All-prefix : (P : Thunk → Type 0) (xs ys : List Thunk) → All P (xs ++ ys) → All P xs
  All-prefix P [] ys h = tt
  All-prefix P (x ∷ xs) ys (h, hs) = (h, All-prefix P xs ys hs)

  pub loop_holds :
      (fuel : ℕ) (s last : State)
      → IsTarget branch_range thunk_size symbols members
      → create_loop branch_range thunk_size symbols fuel members reach s ≡ some last
      → All (IsSmallThunk branch_range thunk_size) last.thunks
      → IsLaidOut s
      → IsLaidOut last × (length members ≤ last.b)
  loop_holds zero s last target h smallt holds = elim (dec_lt s.b (length members)) [
    | yes left ↦ absurd (loop_left s last left h)
    | no ended ↦ rw (← loop_end zero s last (omega arith) h) (holds, omega arith)
  ]
  loop_holds (suc fuel) s last target h smallt holds = elim (dec_lt s.b (length members)) [
    | yes left ↦
        let next = step branch_range thunk_size symbols members reach s in
        let more = loop_next fuel s last left h in
        let (thunks, e) = loop_more fuel next last more in
        loop_holds fuel next last target more smallt (
          step_holds s target left
            (All-prefix (IsSmallThunk branch_range thunk_size) next.thunks thunks
              (subst (All (IsSmallThunk branch_range thunk_size)) e smallt))
            holds)
    | no ended ↦ rw (← loop_end (suc fuel) s last (omega arith) h) (holds, omega arith)
  ]
