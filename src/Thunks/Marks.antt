-- ===== src/Thunks/Marks.antt =====
-- The marks of macho/thunks.rs: what unmarking and pruning leave marked.
use mathlib.Core.Path.{subst}
use mold_macho.Prelude.{
  ◌==◌, List, false, ◌≡◌, [], ◌∷◌, get_elem?, true, arith, some, ℕ, inl, none, refl, ap, ℕ_discrete,
  zero, suc, ◌≤◌, inr, sym, Bool-cases, drop,
}
use mold_macho.Prelude.Bytes.{All}
use mold_macho.Prelude.Fallible.{some_inj}
use mold_macho.Thunks.Data.{is_marked, unmark, unmark_all, unmark_thunks, Thunk}

-- An entry of a thunk: the thunk's place among the thunks, the thunk, and the entry's place in it.
pub record Entry (id : ℕ) (thunks : List Thunk) : Type 0 where
  pub nth : ℕ
  pub thunk : Thunk
  pub at_nth : get_elem? thunks nth ≡ some thunk
  pub place : ℕ
  pub at_place : get_elem? thunk.syms place ≡ some id

is_marked-unmark :
    (id other : ℕ) (marks : List ℕ)
    → is_marked id (unmark other marks) ≡ true
    → (is_marked id marks ≡ true) × ((other == id) ≡ false)
unfolding is_marked unmark
is_marked-unmark id other [] h = absurd (ground arith)
is_marked-unmark id other (m ∷ marks) h = ground (arith, is_marked-unmark id other marks)

pub is_marked-unmark_all :
    (id : ℕ) (syms marks : List ℕ)
    → is_marked id (unmark_all syms marks) ≡ true
    → (is_marked id marks ≡ true) × (is_marked id syms ≡ false)
unfolding is_marked unmark_all
is_marked-unmark_all id [] marks h = (h, refl)
is_marked-unmark_all id (other ∷ syms) marks h =
    let (rest, out) = is_marked-unmark_all id syms (unmark other marks) h in
    let (marked, ne) = is_marked-unmark id other marks rest in (marked, ground arith)

pub get_elem?-is_marked :
    (id : ℕ) (syms : List ℕ) (place : ℕ) → get_elem? syms place ≡ some id → is_marked id syms ≡ true
unfolding is_marked
get_elem?-is_marked id [] place h = absurd cc
get_elem?-is_marked id (x ∷ syms) zero h = let e : x ≡ id = some_inj h in ground arith
get_elem?-is_marked id (x ∷ syms) (suc place) h =
    ground (arith, get_elem?-is_marked id syms place h)

pub is_marked-get_elem? :
    (id : ℕ) (syms : List ℕ)
    → is_marked id syms ≡ true
    → (place : ℕ) × (get_elem? syms place ≡ some id)
unfolding is_marked
is_marked-get_elem? id [] h = absurd (ground arith)
is_marked-get_elem? id (x ∷ syms) h = elim (ℕ_discrete id x) [
  | yes e ↦ (0, ap some (sym e))
  | no ne ↦ let (place, at) = is_marked-get_elem? id syms (ground arith) in (suc place, at)
]

pub later :
    (id : ℕ) (thunk : Thunk) (thunks : List Thunk) → Entry id thunks → Entry id (thunk ∷ thunks)
later id thunk thunks entry = record {
  nth = suc entry.nth;
  thunk = entry.thunk;
  at_nth = entry.at_nth;
  place = entry.place;
  at_place = entry.at_place;
}

-- An entry that is not in the first thunk.
pub past_first :
    (id : ℕ) (thunk : Thunk) (thunks : List Thunk)
    → Entry id (thunk ∷ thunks)
    → is_marked id thunk.syms ≡ false
    → Entry id thunks
past_first id thunk thunks entry out = go entry.nth entry.at_nth
  where
    go : (nth : ℕ) → get_elem? (thunk ∷ thunks) nth ≡ some entry.thunk → Entry id thunks
    go zero at =
        let e : thunk ≡ entry.thunk = some_inj at in
        let m : is_marked id thunk.syms ≡ true =
          subst (λ (u : Thunk). is_marked id u.syms ≡ true) (sym e)
            (get_elem?-is_marked id entry.thunk.syms entry.place entry.at_place) in
        absurd (ground arith)
    go (suc nth) at = record {
      nth = nth;
      thunk = entry.thunk;
      at_nth = at;
      place = entry.place;
      at_place = entry.at_place;
    }

-- Every marked symbol has an entry in one of the thunks.
abbrev pub Held : List ℕ → List Thunk → Type 0
Held marks thunks = (id : ℕ) → is_marked id marks ≡ true → Entry id thunks

-- Each thunk is at least at the offset of those before it.
abbrev pub IsAscending : List Thunk → Type 0
IsAscending [] = Unit
IsAscending (thunk ∷ thunks) = All (λ u. thunk.offset ≤ u.offset) thunks × IsAscending thunks

pub drop-IsAscending :
    (n : ℕ) (thunks : List Thunk) → IsAscending thunks → IsAscending (drop n thunks)
drop-IsAscending zero thunks h = h
drop-IsAscending (suc n) [] h = tt
drop-IsAscending (suc n) (u ∷ thunks) (above, h) = drop-IsAscending n thunks h

pub unmark_all-Held :
    (thunk : Thunk) (thunks : List Thunk) (marks : List ℕ)
    → Held marks (thunk ∷ thunks)
    → Held (unmark_all thunk.syms marks) thunks
unmark_all-Held thunk thunks marks held id h =
    let (marked, out) = is_marked-unmark_all id thunk.syms marks h in
    past_first id thunk thunks (held id marked) out

pub unmark_thunks-none :
    (thunks : List Thunk) (marks : List ℕ)
    → Held marks thunks
    → (id : ℕ) → is_marked id (unmark_thunks thunks marks) ≡ false
unfolding unmark_thunks
unmark_thunks-none [] marks held id = elim (Bool-cases (is_marked id marks)) [
  | inl e ↦ let entry = held id e in let h : none ≡ some entry.thunk = entry.at_nth in absurd cc
  | inr e ↦ e
]
unmark_thunks-none (thunk ∷ thunks) marks held id =
    unmark_thunks-none thunks (unmark_all thunk.syms marks)
      (unmark_all-Held thunk thunks marks held) id
