-- ===== src/Thunks/Prune.antt =====
-- The thunks that macho/thunks.rs keeps as within reach of a batch, and the marks it keeps.
use mold_macho.Prelude.{
  ◌≤◌, [], ◌-◌, ◌∷◌, arith, List, ltb→ge, Bool-cases, ltb, inr, drop, inl, ◌≡◌, ℕ, suc, length, ◌+◌,
}
use mold_macho.Prelude.Bytes.{All}
use mold_macho.Thunks.Data.{prune, Thunk, unmark_all}
use mold_macho.Thunks.Marks.{Held, IsAscending, unmark_all-Held}

pub record IsPruned (a_offset : ℕ) (thunks : List Thunk) (t : ℕ) (kept : List ℕ × ℕ) : Type 0 where
  pub after : t ≤ kept.1
  pub within : kept.1 ≤ t + length thunks
  pub held : Held kept.0 (drop (kept.1 - t) thunks)
  pub in_range : All (λ u. a_offset ≤ u.offset) (drop (kept.1 - t) thunks)

All-le :
    (low high : ℕ) (thunks : List Thunk)
    → low ≤ high
    → All (λ u. high ≤ u.offset) thunks
    → All (λ u. low ≤ u.offset) thunks
All-le low high [] le h = tt
All-le low high (u ∷ thunks) le (h, hs) = (omega arith, All-le low high thunks le hs)

pub prune-IsPruned :
    (a_offset : ℕ) (thunks : List Thunk) (marks : List ℕ) (t : ℕ)
    → IsAscending thunks
    → Held marks thunks
    → IsPruned a_offset thunks t (prune a_offset thunks marks t)
unfolding prune
prune-IsPruned a_offset [] marks t ascending held =
    let e : t - t ≡ 0 = omega arith in
    record { after = omega arith; within = omega arith; held = rw e held; in_range = rw e tt }
prune-IsPruned a_offset (thunk ∷ thunks) marks t (above, ascending) held =
    elim (Bool-cases (ltb thunk.offset a_offset)) [
      | inl out ↦
          let marks' = unmark_all thunk.syms marks in
          let kept = prune a_offset thunks marks' (t + 1) in
          let rest =
            prune-IsPruned a_offset thunks marks' (t + 1) ascending
              (unmark_all-Held thunk thunks marks held) in
          let e : kept.1 - t ≡ suc (kept.1 - (t + 1)) = omega (arith, rest.after) in
          rw out record {
            after = omega (arith, rest.after);
            within = omega (arith, rest.within);
            held = rw e rest.held;
            in_range = rw e rest.in_range;
          }
      | inr near ↦
          let e : t - t ≡ 0 = omega arith in
          let le = ltb→ge thunk.offset a_offset near in
          rw near record {
            after = omega arith;
            within = omega arith;
            held = rw e held;
            in_range = rw e (le, All-le a_offset thunk.offset thunks le above);
          }
    ]
