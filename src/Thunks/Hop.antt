-- ===== src/Thunks/Hop.antt =====
-- A round of the loop of `create_thunks` of macho/thunks.rs: its parts, and the entries that a branch
-- of its batch reaches.
use mold_macho.Prelude.{
  ◌+◌, ◌⊎◌, ◌*◌, true, ◌^◌, ◌≡◌, length, List, ℕ, drop, some, ◌≤◌, ◌<◌, take, false, get_elem?,
  ◌++◌, ◌∙◌, ◌-◌, arith, sym, dec_le, ◌%◌,
}
use mold_macho.Prelude.Bytes.{All, All-get_elem?}
use mold_macho.Prelude.Slices.{get_elem?-drop, get_elem?-in}
use mold_macho.Thunks.{State, Placed, batch_end, offset_of_c, next_a, aim}
use mold_macho.Thunks.Claims.{IsBranch}
use mold_macho.Thunks.Data.{Thunk, Isec, Rel, Symbol, Reach, offset_at, prune}
use mold_macho.Thunks.Layout.{IsSmall}
use mold_macho.Thunks.Marks.{Entry}
use mold_macho.Thunks.Scan.{distance, in_reach, requires_thunk, scan_batch}
use mold_macho.Thunks.Valid.{IsValid, Spans}
use native.Mathlib.Nat.{mul-le-mul_right}

in_reach-near :
    (distance target p : ℕ)
    → distance ≤ 2 ^ 31
    → target < 2 ^ 33
    → p < 2 ^ 33
    → target < p + distance
    → p ≤ target + distance
    → in_reach distance target p ≡ true
unfolding in_reach
in_reach-near distance target p hd ht hp above below = elim (dec_le p target) [
  | yes after ↦
      let e : (target + 2 ^ 64 - p) % 2 ^ 64 ≡ target - p = omega arith in rw e (ground arith)
  | no before ↦
      let e : (target + 2 ^ 64 - p) % 2 ^ 64 ≡ target + 2 ^ 64 - p = omega arith in
      rw e (ground arith)
]

module _ (branch_range thunk_size : ℕ) (symbols : ℕ → Symbol) where
  -- An entry for a symbol that a branch at `p` reaches.
  abbrev pub Hop : ℕ → ℕ → List Thunk → Type 0
  Hop id p thunks =
      (entry : Entry id thunks) × (in_reach (distance branch_range)
          (entry.thunk.offset + entry.place * thunk_size) p
        ≡ true)

  -- What a round does: it keeps what holds, moves on, and serves the branches of its batch.
  pub record IsRound (members : List Isec) (reach : Reach) (s : State) (placed : Placed)
      (s' : State) : Type 0 where
    pub valid : IsValid branch_range thunk_size members s'
    pub moves : s.b < s'.b
    pub starts_same : s'.starts ≡ placed.starts
    pub more : List Thunk
    pub thunks_more : s'.thunks ≡ s.thunks ++ more
    pub serves :
        (i : ℕ) (isec : Isec) (k : ℕ) (rel : Rel) (id : ℕ)
        → s.b ≤ i
        → i < s'.b
        → get_elem? members i ≡ some isec
        → get_elem? isec.rels k ≡ some rel
        → IsBranch rel id
        → rel.offset ≤ isec.size
        → (requires_thunk branch_range placed.starts
              (aim branch_range members reach placed s.b (offset_of_c placed s'.b))
              (offset_at placed.starts i + rel.offset)
              (symbols id)
            ≡ false)
          ⊎ Hop id (offset_at placed.starts i + rel.offset) s'.thunks

  module _ (members : List Isec) (reach : Reach) (s : State) (placed : Placed) where
    abbrev pub next_b : ℕ
    next_b = batch_end members placed.starts s.b (length placed.starts)

    abbrev pub c_offset : ℕ
    c_offset = offset_of_c placed next_b

    abbrev pub a_next : ℕ
    a_next = next_a branch_range placed.starts s.a s.b c_offset

    abbrev pub kept : List ℕ × ℕ
    kept = prune (offset_at placed.starts a_next) (drop s.t s.thunks) s.marks s.t

    abbrev pub found : List ℕ × List ℕ
    found =
        scan_batch branch_range symbols placed.starts
          (aim branch_range members reach placed s.b c_offset) s.b
          (take (next_b - s.b) (drop s.b members)) kept.0

  pub hop :
      (id p low high : ℕ) (t : ℕ) (thunks : List Thunk)
      → 0 < thunk_size
      → distance branch_range ≤ 2 ^ 31
      → high < 2 ^ 33
      → p < 2 ^ 33
      → high ≤ p + distance branch_range
      → p ≤ low + distance branch_range
      → All (Spans branch_range thunk_size low high) (drop t thunks)
      → Entry id (drop t thunks)
      → Hop id p thunks
  hop id p low high t thunks ht hd hh hp above below all entry =
      let (le, ge) =
        All-get_elem? (Spans branch_range thunk_size low high) (drop t thunks) entry.nth entry.thunk
          all entry.at_nth in
      let in_thunk : entry.place < length entry.thunk.syms =
        get_elem?-in entry.thunk.syms entry.place id entry.at_place in
      let inside : entry.place * thunk_size + thunk_size ≤ length entry.thunk.syms * thunk_size =
        omega (arith, mul-le-mul_right thunk_size in_thunk) in
      (
        record {
          nth = t + entry.nth;
          thunk = entry.thunk;
          at_nth = sym (get_elem?-drop t thunks entry.nth) ∙ entry.at_nth;
          place = entry.place;
          at_place = entry.at_place;
        },
        in_reach-near (distance branch_range) (entry.thunk.offset + entry.place * thunk_size) p hd
            (omega arith) hp (omega arith) (omega arith),
      )

  -- What the target and the section give: the reach of a branch, entries of some size, no member too
  -- large.
  pub record IsTarget (members : List Isec) : Type 0 where
    pub far : 16777216 ≤ distance branch_range
    pub not_too_far : distance branch_range ≤ 2 ^ 31
    pub some_size : 0 < thunk_size
    pub small : All IsSmall members
