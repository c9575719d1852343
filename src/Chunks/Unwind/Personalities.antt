-- ===== src/Chunks/Unwind/Personalities.antt =====
-- The personality routines: indexing them as they come up gives each record the place of its
-- routine in the final array.
use mathlib.Core.Option
use mold_macho.Chunks.Unwind.{
  UnwindRecord, personality, position, personality_index, assign_loop, give_index,
  assign_personalities,
}
use mold_macho.Prelude.{
  ◌<◌, Option-cases, ◌+◌, none, ◌++◌, ◌≡◌, arith, ◌*◌, ◌∷◌, ◌==◌, inr, bit_or, List, some, ℕ, ◌^◌,
  length, Bool-cases, inl, [], ap, ◌≤◌, sym, length-append, refl, if◌then◌else◌, append_assoc, leb,
  ◌%◌, ◌⊎◌, ◌∙◌, map, append-nil, Option, false, le→leb, dec_lt,
}
use mold_macho.Prelude.Fallible.{some_inj, ◌>>=◌}

-- The routines of the records, each once, in order of first use.
unfoldable pub routines : List ℕ → List UnwindRecord → List ℕ
routines ps [] = ps
routines ps (rec ∷ records) =
    routines
      (elim (personality rec) [
        | none ↦ ps
        | some p ↦ elim (position p ps) [ some idx ↦ ps | none ↦ ps ++ p ∷ [] ]
      ])
      records

-- A record with the 1-based place of its routine in bits 28 and 29 of the encoding.
unfoldable pub with_index : List ℕ → UnwindRecord → UnwindRecord
with_index ps rec = elim (personality rec) [
  | none ↦ rec
  | some p ↦ elim (position p ps) [
    | none ↦ rec
    | some idx ↦ record rec { encoding = bit_or rec.encoding ((idx + 1) * 2 ^ 28) }
  ]
]

none_ne : {a : ℕ} → none ≡ some a → ⊥
none_ne h = cc

position-append :
    (p : ℕ) (ps more : List ℕ) (idx : ℕ)
    → position p ps ≡ some idx
    → (idx < length ps) × (position p (ps ++ more) ≡ some idx)
unfolding position
position-append p [] more idx h = cc
position-append p (q ∷ ps) more idx h = elim (Bool-cases (q == p)) [
  | inl here ↦ rw here (ground (arith, some_inj (rw here at h)), rw here at h)
  | inr there ↦ rw there (elim (Option-cases (position p ps)) [
    | inl out ↦ absurd (none_ne (rw (there, out) at h))
    | inr (i, at) ↦
        let (lt, e) = position-append p ps more i at in
        let same : i + 1 ≡ idx = some_inj (rw (there, at) at h) in
        (omega arith, rw (e, Option.map) (ap some same))
  ])
]

position-new :
    (p : ℕ) (ps : List ℕ) → position p ps ≡ none → position p (ps ++ p ∷ []) ≡ some (length ps)
unfolding position
position-new p [] h = ground arith
position-new p (q ∷ ps) h = elim (Bool-cases (q == p)) [
  | inl here ↦ absurd (none_ne (sym (rw here at h)))
  | inr there ↦ elim (Option-cases (position p ps)) [
    | inl out ↦ rw (there, position-new p ps out, Option.map) (ap some (omega arith))
    | inr (i, at) ↦ absurd (none_ne (sym (rw (there, at) at h)))
  ]
]

personality_index-new :
    (ps : List ℕ) (p : ℕ)
    → position p ps ≡ none
    → personality_index ps p ≡ (length ps, ps ++ p ∷ [])
unfolding personality_index
personality_index-new ps p h = rw (h, personality_index)

personality_index-old :
    (ps : List ℕ) (p : ℕ) {i : ℕ} → position p ps ≡ some i → personality_index ps p ≡ (i, ps)
unfolding personality_index
personality_index-old ps p h = rw (h, personality_index)

-- One step of the scan: the array is extended, and the routine is at its index from then on.
abbrev Extends : List ℕ → ℕ → ℕ × List ℕ → Type 0
Extends ps p (idx, ps') =
    ((more : List ℕ) → position p (ps' ++ more) ≡ some idx)
    × (idx < length ps')
    × ((length ps' ≡ length ps) ⊎ (length ps' ≡ idx + 1))

personality_index-Extends : (ps : List ℕ) (p : ℕ) → Extends ps p (personality_index ps p)
personality_index-Extends ps p = elim (Option-cases (position p ps)) [
  | inl out ↦ rw (personality_index-new ps p out) (
    λ more. (position-append p (ps ++ p ∷ []) more (length ps) (position-new p ps out)).1,
    omega (arith, length-append ps (p ∷ [])),
    inr (omega (arith, length-append ps (p ∷ []))),
  )
  | inr (i, at) ↦
      rw (personality_index-old ps p at)
        (λ more. (position-append p ps more i at).1, (position-append p ps [] i at).0, inl refl)
]

-- The array after one record with a routine, or one with none.
routines-some :
    (ps : List ℕ) (rec : UnwindRecord) (records : List UnwindRecord) {p : ℕ}
    → personality rec ≡ some p
    → routines ps (rec ∷ records) ≡ routines (personality_index ps p).1 records
unfolding routines
routines-some ps rec records {p} h = elim (Option-cases (position p ps)) [
  | inl out ↦ rw (h, out, personality_index-new ps p out)
  | inr (i, at) ↦ rw (h, at, personality_index-old ps p at)
]

routines-none :
    (ps : List ℕ) (rec : UnwindRecord) (records : List UnwindRecord)
    → personality rec ≡ none
    → routines ps (rec ∷ records) ≡ routines ps records
unfolding routines
routines-none ps rec records h = rw h

-- The final array begins with the array so far.
personality_index-append :
    (ps : List ℕ) (p : ℕ) → (more : List ℕ) × ((personality_index ps p).1 ≡ ps ++ more)
personality_index-append ps p = elim (Option-cases (position p ps)) [
  | inl out ↦ (p ∷ [], rw (personality_index-new ps p out))
  | inr (i, at) ↦ ([], rw (personality_index-old ps p at) (sym (append-nil ps)))
]

routines-append :
    (records : List UnwindRecord) (ps : List ℕ)
    → (more : List ℕ) × (routines ps records ≡ ps ++ more)
routines-append [] ps = ([], unfold routines in sym (append-nil ps))
routines-append (rec ∷ records) ps = elim (Option-cases (personality rec)) [
  | inl no_one ↦
      let (more, e) = routines-append records ps in (more, routines-none ps rec records no_one ∙ e)
  | inr (p, at) ↦
      let (more, e) = routines-append records (personality_index ps p).1 in
      let (new, e') = personality_index-append ps p in
      (
        new ++ more,
        routines-some ps rec records at ∙ e ∙ ap (λ l. l ++ more) e' ∙ append_assoc ps new more,
      )
]

-- The outcome, told from the final array.
unfoldable pub indexed : List UnwindRecord → List ℕ → Option (List UnwindRecord × List ℕ)
indexed records final =
    if leb (length final) 3 then some (map (with_index final) records, final) else none

with_index-none :
    (ps : List ℕ) (rec : UnwindRecord) → personality rec ≡ none → with_index ps rec ≡ rec
unfolding with_index
with_index-none ps rec h = rw (h, with_index)

give_index-some :
    (rec : UnwindRecord) (idx p : ℕ) (final : List ℕ)
    → personality rec ≡ some p
    → position p final ≡ some idx
    → idx < 3
    → give_index rec idx ≡ some (with_index final rec)
unfolding give_index with_index
give_index-some rec idx p final h at lt =
    let e : (idx + 1) * 2 ^ 28 % 2 ^ 32 ≡ (idx + 1) * 2 ^ 28 = omega arith in
    rw (h, at, with_index) (ground (arith, e))

indexed-cons :
    (rec rec' : UnwindRecord) (records : List UnwindRecord) (final : List ℕ)
    → with_index final rec ≡ rec'
    → (indexed records final >>= (λ (recs, ps). some (rec' ∷ recs, ps)))
      ≡ indexed (rec ∷ records) final
unfolding indexed
indexed-cons rec rec' records final e = elim (Bool-cases (leb (length final) 3)) [
  | inl few ↦ rw (few, e) refl
  | inr many ↦ rw many refl
]

indexed-many :
    (records : List UnwindRecord) (final : List ℕ) → 3 < length final → indexed records final ≡ none
unfolding indexed
indexed-many records final h = let e : leb (length final) 3 ≡ false = ground arith in rw e

module _ (ps : List ℕ) (rec : UnwindRecord) (records : List UnwindRecord) where
  assign_loop-none :
      personality rec ≡ none
      → assign_loop ps (rec ∷ records)
        ≡ (assign_loop ps records >>= (λ (recs, qs). some (rec ∷ recs, qs)))
  unfolding assign_loop
  assign_loop-none h = rw (h, assign_loop)

  assign_loop-some :
      {p : ℕ}
      → personality rec ≡ some p
      → assign_loop ps (rec ∷ records) ≡ (
          give_index rec (personality_index ps p).0 >>= (λ rec'.
            assign_loop (personality_index ps p).1 records
            >>= (λ (recs, qs). some (rec' ∷ recs, qs))))
  unfolding assign_loop
  assign_loop-some h = rw (h, assign_loop)

give_index-none : (rec : UnwindRecord) (idx : ℕ) → 3 ≤ idx → give_index rec idx ≡ none
unfolding give_index
give_index-none rec idx h = ground arith

assign_loop-indexed :
    (records : List UnwindRecord) (ps : List ℕ)
    → length ps ≤ 3
    → assign_loop ps records ≡ indexed records (routines ps records)
assign_loop-indexed [] ps h = unfold assign_loop routines indexed in rw (le→leb (length ps) 3 h)
assign_loop-indexed (rec ∷ records) ps h = elim (Option-cases (personality rec)) [
  | inl no_one ↦
      rw
        (
          routines-none ps rec records no_one,
          assign_loop-none ps rec records no_one,
          assign_loop-indexed records ps h,
        )
        (indexed-cons rec rec records (routines ps records) (with_index-none _ rec no_one))
  | inr (p, at) ↦
      let (idx, ps') = personality_index ps p in
      let (found, lt, grows) = personality_index-Extends ps p in
      let (more, e) = routines-append records ps' in
      rw (routines-some ps rec records at, assign_loop-some ps rec records at)
        (elim (dec_lt idx 3) [
          | yes few ↦
              let at_end : position p (routines ps' records) ≡ some idx = rw e (found more) in
              rw
                (
                  give_index-some rec idx p (routines ps' records) at at_end few,
                  assign_loop-indexed records ps' (omega arith),
                )
                (indexed-cons rec (with_index (routines ps' records) rec) records
                  (routines ps' records) refl)
          | no many ↦ rw (give_index-none rec idx (omega arith)) (
              sym (
                indexed-many (rec ∷ records) (routines ps' records)
                  (rw e (omega (arith, length-append ps' more)))))
        ])
]

-- With at most three routines, each record that has one gets its 1-based place in the array of all
-- the routines, in bits 28 and 29 of its encoding, and the other records stay as they are;
-- with more routines the link fails.
pub assign_personalities-indexed :
    (records : List UnwindRecord)
    → assign_personalities records ≡ indexed records (routines [] records)
unfolding assign_personalities
assign_personalities-indexed records = assign_loop-indexed records [] (omega arith)
