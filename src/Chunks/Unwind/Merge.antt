-- ===== src/Chunks/Unwind/Merge.antt =====
-- Merging records does not change what the unwinder finds for any address.
use mold_macho.Chunks.Unwind.{
  UnwindRecord, func_addr, lsda, is_none, stack_ind, dedup_by, same_personality, personality,
  merge_records, merges,
}
use mold_macho.Prelude.{
  true, Bool, leb, ℕ, refl, none, ◌∷◌, ◌&&◌, inl, ◌≤◌, Option, inr, leb→le, ◌==◌, ==_iff, some,
  le→leb, Bool-cases, ◌⊎◌, [], if◌then◌else◌, not, false, List, arith, ◌≡◌,
}

-- The unwinder's search over entries that have no length: the last one at or before `pc`.
unfoldable pub find : (ℕ → ℕ) → ℕ → Option UnwindRecord → List UnwindRecord → Option UnwindRecord
find isec_addr pc best [] = best
find isec_addr pc best (rec ∷ records) =
    find isec_addr pc (if leb (func_addr isec_addr rec) pc then some rec else best) records

-- The records are in ascending order of their addresses.
abbrev pub IsAscending : (ℕ → ℕ) → List UnwindRecord → Type 0
IsAscending isec_addr [] = Unit
IsAscending isec_addr (a ∷ []) = Unit
IsAscending isec_addr (a ∷ b ∷ records) =
    (func_addr isec_addr a ≤ func_addr isec_addr b) × IsAscending isec_addr (b ∷ records)

-- Two entries tell the unwinder the same: the encoding and the personality are equal, and the
-- entry is the same one unless neither has an LSDA and the encoding does not depend on where
-- its function starts.
abbrev pub Agrees : Bool → UnwindRecord → UnwindRecord → Type 0
Agrees x86 r s =
    (s.encoding ≡ r.encoding)
    × (personality s ≡ personality r)
    × ((s ≡ r) ⊎ ((stack_ind x86 r.encoding ≡ false) × (lsda r ≡ none) × (lsda s ≡ none)))

abbrev pub SameEntry : Bool → Option UnwindRecord → Option UnwindRecord → Type 0
SameEntry x86 none none = Unit
SameEntry x86 none (some s) = ⊥
SameEntry x86 (some r) none = ⊥
SameEntry x86 (some r) (some s) = Agrees x86 r s

same_personality-eq :
    (a b : UnwindRecord) → same_personality a b ≡ true → personality a ≡ personality b
unfolding same_personality personality
same_personality-eq a b h = ground arith

is_none-eq {ℓ} : {A : Type ℓ} (o : Option A) → is_none o ≡ true → o ≡ none
is_none-eq none h = refl
is_none-eq (some a) h = cc

and-split : (a b : Bool) → (a && b) ≡ true → (a ≡ true) × (b ≡ true)
and-split a b h = ground arith

merges-Agrees :
    (x86 : Bool) (rec last : UnwindRecord) → merges x86 rec last ≡ true → Agrees x86 rec last
unfolding merges
merges-Agrees x86 rec last h =
    let (plain, h1) = and-split (not (stack_ind x86 rec.encoding)) _ h in
    let (same, h2) = and-split (last.encoding == rec.encoding) _ h1 in
    let (pers, h3) = and-split (same_personality last rec) _ h2 in
    let (l1, l2) = and-split (is_none (lsda last)) _ h3 in
    (
      (==_iff _ _).0 same,
      same_personality-eq last rec pers,
      inr (ground arith, is_none-eq (lsda rec) l2, is_none-eq (lsda last) l1),
    )

Agrees-self : (x86 : Bool) (r : UnwindRecord) → Agrees x86 r r
Agrees-self x86 r = (refl, refl, inl refl)

IsAscending-skip :
    (isec_addr : ℕ → ℕ) (a b : UnwindRecord) (records : List UnwindRecord)
    → IsAscending isec_addr (a ∷ b ∷ records)
    → IsAscending isec_addr (a ∷ records)
IsAscending-skip isec_addr a b [] h = tt
IsAscending-skip isec_addr a b (c ∷ records) h = ground arith

module _ (isec_addr : ℕ → ℕ) (pc : ℕ) (rec : UnwindRecord) (records : List UnwindRecord) where
  find-below :
      (best : Option UnwindRecord)
      → leb (func_addr isec_addr rec) pc ≡ true
      → find isec_addr pc best (rec ∷ records) ≡ find isec_addr pc (some rec) records
  unfolding find
  find-below best h = rw h

  find-above :
      (best : Option UnwindRecord)
      → leb (func_addr isec_addr rec) pc ≡ false
      → find isec_addr pc best (rec ∷ records) ≡ find isec_addr pc best records
  unfolding find
  find-above best h = rw h

module _ (x86 : Bool) (last rec : UnwindRecord) (records : List UnwindRecord) where
  dedup_by-dropped :
      merges x86 rec last ≡ true → dedup_by x86 last (rec ∷ records) ≡ dedup_by x86 last records
  unfolding dedup_by
  dedup_by-dropped h = rw h

  dedup_by-kept :
      merges x86 rec last ≡ false
      → dedup_by x86 last (rec ∷ records) ≡ rec ∷ dedup_by x86 rec records
  unfolding dedup_by
  dedup_by-kept h = rw h

module _ (x86 : Bool) (isec_addr : ℕ → ℕ) (pc : ℕ) where
  dedup_by-find :
      (records : List UnwindRecord) (last : UnwindRecord) (best best' : Option UnwindRecord)
      → IsAscending isec_addr (last ∷ records)
      → SameEntry x86 best best'
      → (leb (func_addr isec_addr last) pc ≡ true → best' ≡ some last)
      → SameEntry x86
          (find isec_addr pc best records)
          (find isec_addr pc best' (dedup_by x86 last records))
  dedup_by-find [] last best best' asc same here = unfold find dedup_by in same
  dedup_by-find (rec ∷ records) last best best' asc same here =
      let skip = IsAscending-skip isec_addr last rec records asc in
      elim (Bool-cases (leb (func_addr isec_addr rec) pc)) [
        | inl below ↦ elim (Bool-cases (merges x86 rec last)) [
          | inl m ↦
              let at_last : best' ≡ some last =
                here (le→leb _ _ (omega (arith, leb→le _ _ below))) in
              rw
                (
                  dedup_by-dropped x86 last rec records m,
                  find-below isec_addr pc rec records best below,
                )
                (dedup_by-find records last (some rec) best' skip
                  (rw at_last (merges-Agrees x86 rec last m)) here)
          | inr k ↦
              rw
                (
                  dedup_by-kept x86 last rec records k,
                  find-below isec_addr pc rec records best below,
                  find-below isec_addr pc rec (dedup_by x86 rec records) best' below,
                )
                (dedup_by-find records rec (some rec) (some rec) asc.1 (Agrees-self x86 rec)
                  (λ _. refl))
        ]
        | inr above ↦ elim (Bool-cases (merges x86 rec last)) [
          | inl m ↦
              rw
                (
                  dedup_by-dropped x86 last rec records m,
                  find-above isec_addr pc rec records best above,
                )
                (dedup_by-find records last best best' skip same here)
          | inr k ↦
              rw
                (
                  dedup_by-kept x86 last rec records k,
                  find-above isec_addr pc rec records best above,
                  find-above isec_addr pc rec (dedup_by x86 rec records) best' above,
                )
                (dedup_by-find records rec best best' asc.1 same (λ below. cc))
        ]
      ]

-- For every address the unwinder finds an entry in the merged table exactly if it does in the
-- table of records in ascending order, and the entries agree.
pub merge_records-find :
    (x86 : Bool) (isec_addr : ℕ → ℕ) (pc : ℕ) (records : List UnwindRecord)
    → IsAscending isec_addr records
    → SameEntry x86
        (find isec_addr pc none records)
        (find isec_addr pc none (merge_records x86 records))
unfolding merge_records
merge_records-find x86 isec_addr pc [] asc = unfold find in tt
merge_records-find x86 isec_addr pc (rec ∷ records) asc =
    elim (Bool-cases (leb (func_addr isec_addr rec) pc)) [
      | inl below ↦
          rw
            (
              find-below isec_addr pc rec records none below,
              find-below isec_addr pc rec (dedup_by x86 rec records) none below,
            )
            (dedup_by-find x86 isec_addr pc records rec (some rec) (some rec) asc
              (Agrees-self x86 rec) (λ _. refl))
      | inr above ↦
          rw
            (
              find-above isec_addr pc rec records none above,
              find-above isec_addr pc rec (dedup_by x86 rec records) none above,
            )
            (dedup_by-find x86 isec_addr pc records rec none none asc tt (λ below. cc))
    ]
