-- ===== src/Chunks/Segments.antt =====
-- The output segments, and `segment_and_offset` of macho/chunks/mod.rs.
use mathlib.Core.Path.{subst}
use mold_macho.Prelude.{
  ℕ, get_elem?, ◌+◌, none, Bool, ◌-◌, inl, inr, ◌&&◌, ◌≢◌, ◌≡◌, some, if◌then◌else◌, ◌<◌, leb, ◌∷◌,
  List, not, [], Bool-cases, Option, ltb, arith, ◌≤◌, suc, refl, true, ◌↔◌, ◌∙◌, zero, sym, false,
}
use mold_macho.Prelude.Bytes.{codes, bytes_eq, bytes_eq_iff}
use mold_macho.Prelude.Fallible.{some_inj}

-- The fields of an OutputSegment and its load command that the tables read.
pub record Segment : Type 0 where
  pub name : List ℕ
  pub vmaddr : ℕ
  pub vmsize : ℕ

abbrev pub pagezero : List ℕ
pagezero = codes "__PAGEZERO"

unfoldable pub holds : Segment → ℕ → Bool
unfolding bytes_eq
holds seg addr =
    leb seg.vmaddr addr && ltb addr (seg.vmaddr + seg.vmsize) && not (bytes_eq seg.name pagezero)

unfoldable pub segment_and_offset_from : ℕ → List Segment → ℕ → Option (ℕ × ℕ)
segment_and_offset_from i [] addr = none
segment_and_offset_from i (seg ∷ segs) addr =
    if holds seg addr
    then some (i, addr - seg.vmaddr)
    else segment_and_offset_from (i + 1) segs addr

-- `none` is the `unreachable!` of an address that no segment holds.
unfoldable pub segment_and_offset : List Segment → ℕ → Option (ℕ × ℕ)
unfolding segment_and_offset_from holds
segment_and_offset segs addr = segment_and_offset_from 0 segs addr

-- An address lies in some segment other than __PAGEZERO.
abbrev pub IsMapped : List Segment → ℕ → Type 0
IsMapped segs addr = segment_and_offset segs addr ≢ none

-- The segment found holds the address at the offset found.
abbrev pub Locates : List Segment → ℕ → ℕ × ℕ → Type 0
Locates segs addr (i, off) =
    (seg : Segment) × (get_elem? segs i ≡ some seg) × (seg.vmaddr + off ≡ addr) × (off < seg.vmsize)

holds-bounds :
    (seg : Segment) (addr : ℕ)
    → holds seg addr ≡ true
    → (seg.vmaddr ≤ addr) × (addr < seg.vmaddr + seg.vmsize)
unfolding holds
holds-bounds seg addr h = ground arith

segment_and_offset_from-Locates :
    (segs : List Segment) (k addr i off : ℕ)
    → segment_and_offset_from k segs addr ≡ some (i, off)
    → (j : ℕ) × (i ≡ k + j) × Locates segs addr (j, off)
unfolding segment_and_offset_from
segment_and_offset_from-Locates [] k addr i off h = cc
segment_and_offset_from-Locates (seg ∷ segs) k addr i off h = elim (Bool-cases (holds seg addr)) [
  | inl here ↦
      let bounds = holds-bounds seg addr here in
      let e : ◌≡◌ {A = Option (ℕ × ℕ)} (some (k, addr - seg.vmaddr)) (some (i, off)) =
        rw here at h in
      (0, ground arith, (seg, refl, ground arith, ground arith))
  | inr there ↦
      let (j, ei, found) =
        segment_and_offset_from-Locates segs (k + 1) addr i off (rw there at h) in
      (suc j, omega arith, found)
]

-- Where the segment found holds the address, at the offset found.
pub segment_and_offset-Locates :
    (segs : List Segment) (addr i off : ℕ)
    → segment_and_offset segs addr ≡ some (i, off)
    → Locates segs addr (i, off)
unfolding segment_and_offset
segment_and_offset-Locates segs addr i off h =
    let (j, e, found) = segment_and_offset_from-Locates segs 0 addr i off h in
    let e' : i ≡ j = omega arith in rw e' found

-- The segment, which is not __PAGEZERO, has the address.
abbrev pub Contains : ℕ → Segment → Type 0
Contains addr seg = (seg.name ≢ pagezero) × (seg.vmaddr ≤ addr) × (addr < seg.vmaddr + seg.vmsize)

-- The first segment that contains an address, or none.
abbrev pub First : List Segment → ℕ → Option (ℕ × ℕ) → Type 0
First segs addr none = (i : ℕ) (seg : Segment) → get_elem? segs i ≡ some seg → ¬ Contains addr seg
First segs addr (some (i, off)) =
    (seg : Segment) × (get_elem? segs i ≡ some seg)
    × Contains addr seg
    × (seg.vmaddr + off ≡ addr)
    × ((j : ℕ) (other : Segment) → j < i → get_elem? segs j ≡ some other → ¬ Contains addr other)

holds-Contains : (seg : Segment) (addr : ℕ) → (holds seg addr ≡ true) ↔ Contains addr seg
unfolding holds
holds-Contains seg addr = (into, out)
  where
    same : (bytes_eq seg.name pagezero ≡ true) ↔ (seg.name ≡ pagezero)
    same = bytes_eq_iff seg.name pagezero

    into : holds seg addr ≡ true → Contains addr seg
    into h =
        let plain : bytes_eq seg.name pagezero ≡ false = ground (arith, h) in
        (λ e. let e' = same.1 e in absurd cc, ground (arith, h), ground (arith, h))

    out : Contains addr seg → holds seg addr ≡ true
    out (plain, low, high) = elim (Bool-cases (bytes_eq seg.name pagezero)) [
      | inl e ↦ absurd (plain (same.0 e))
      | inr e ↦ rw e (ground arith)
    ]

-- What is found, `k` places on.
moved_by : ℕ → Option (ℕ × ℕ) → Option (ℕ × ℕ)
moved_by k none = none
moved_by k (some (i, off)) = some (k + i, off)

next_place : Option (ℕ × ℕ) → Option (ℕ × ℕ)
next_place none = none
next_place (some (i, off)) = some (suc i, off)

First-later :
    (seg : Segment) (segs : List Segment) (addr : ℕ) (found : Option (ℕ × ℕ))
    → ¬ Contains addr seg
    → First segs addr found
    → First (seg ∷ segs) addr (next_place found)
unfolding next_place
First-later seg segs addr none fails first = later
  where
    later :
        (i : ℕ) (other : Segment) → get_elem? (seg ∷ segs) i ≡ some other → ¬ Contains addr other
    later zero other e = subst (λ (x : Segment). ¬ Contains addr x) (some_inj e) fails
    later (suc i) other e = first i other e
First-later seg segs addr (some (i, off)) fails (found, at, inside, sum, before) =
    (found, at, inside, sum, later)
  where
    later :
        (j : ℕ) (other : Segment)
        → j < suc i
        → get_elem? (seg ∷ segs) j ≡ some other
        → ¬ Contains addr other
    later zero other h e = subst (λ (x : Segment). ¬ Contains addr x) (some_inj e) fails
    later (suc j) other h e = before j other (omega arith) e

shift : (k : ℕ) (found : Option (ℕ × ℕ)) → moved_by (k + 1) found ≡ moved_by k (next_place found)
unfolding moved_by next_place
shift k none = refl
shift k (some (i, off)) = let e : k + 1 + i ≡ k + suc i = omega arith in rw e refl

segment_and_offset_from-First :
    (segs : List Segment) (k addr : ℕ)
    → (found : Option (ℕ × ℕ)) × First segs addr found
      × (segment_and_offset_from k segs addr ≡ moved_by k found)
unfolding segment_and_offset_from moved_by
segment_and_offset_from-First [] k addr = (none, λ i seg e. absurd cc, refl)
segment_and_offset_from-First (seg ∷ segs) k addr = elim (Bool-cases (holds seg addr)) [
  | inl here ↦
      let inside = (holds-Contains seg addr).0 here in
      let e : k + 0 ≡ k = omega arith in
      rw here (
        some (0, addr - seg.vmaddr),
        (seg, refl, inside, omega (arith, inside.1), λ j other h. absurd (omega arith)),
        rw e refl,
      )
  | inr there ↦
      let (found, first, e) = segment_and_offset_from-First segs (k + 1) addr in
      let fails : ¬ Contains addr seg =
        λ h. let yes_h = (holds-Contains seg addr).1 h in absurd cc in
      rw there (next_place found, First-later seg segs addr found fails first, e ∙ shift k found)
]

unmoved : (found : Option (ℕ × ℕ)) → moved_by 0 found ≡ found
unfolding moved_by
unmoved none = refl
unmoved (some (i, off)) = let e : 0 + i ≡ i = omega arith in rw e refl

-- `segment_and_offset` finds the first segment other than __PAGEZERO that has the address, and the
-- address's offset in it; it finds none only if no such segment has the address.
pub segment_and_offset-First :
    (segs : List Segment) (addr : ℕ) → First segs addr (segment_and_offset segs addr)
unfolding segment_and_offset
segment_and_offset-First segs addr =
    let (found, first, e) = segment_and_offset_from-First segs 0 addr in
    subst (First segs addr) (sym (e ∙ unmoved found)) first
