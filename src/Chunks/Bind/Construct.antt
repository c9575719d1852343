-- ===== src/Chunks/Bind/Construct.antt =====
-- The whole of `construct`: the loader makes exactly the binds gathered, in the order of the key.
use mathlib.Core.List.Perm
use mathlib.Core.List.{Perm}
use mathlib.Core.Path.{subst}
use mold_macho.Chunks.Bind.{
  Op, bind, Bind, BindState, construct, enter, addr_ops, bind_ops, bind_ops_loop, addend_ops,
  bind_le, int_eq, dylib_ops, symbol_ops, import_flags, move_in, bind_one, in_library,
}
use mold_macho.Chunks.Bind.Key.{KeyLe, bind_le-true, bind_le-false}
use mold_macho.Chunks.Bind.Machine.{bound_stream}
use mold_macho.Chunks.Bind.Moves.{Apart-Steps, Apart}
use mold_macho.Chunks.Bind.Ops.{made_of, start, bind_ops-bound}
use mold_macho.Chunks.Bind.Stream.{IsOp, IsOrdinal, IsName, encode-bound}
use mold_macho.Chunks.Rebase.Construct.{get_elem?-lt}
use mold_macho.Chunks.Rebase.Ops.{IsSlot}
use mold_macho.Chunks.Segments.{Segment, segment_and_offset-Locates, segment_and_offset}
use mold_macho.Prelude.{
  ◌==◌, Bool-cases, Option, some, ◌≤◌, inr, none, ◌++◌, length, arith, ◌<◌, [], ◌≡◌, ◌^◌, ◌&&◌, ◌∷◌,
  refl, ℕ, inl, List, ◌∙◌, Bool,
}
use mold_macho.Prelude.Bytes.{All-append, All, All-weaken}
use mold_macho.Prelude.Fallible.{>>=-eq-some, some_inj}
use mold_macho.Prelude.Int.{ℤ}
use mold_macho.Prelude.SortBy.{All-sort_by, sort_by, Chain, sort_by-Perm, sort_by-Chain}
use mold_macho.Util.Leb.Signed.{IsI64}
use mold_macho.Util.SipHash.{new}

module _ (segs : List Segment) (few : length segs ≤ 16) (name : ℕ → List ℕ) (ordinal : ℕ → Option ℤ)
    (flags : ℕ → ℕ) where
  -- The stream can say what a bind needs.
  abbrev pub Fits : Bind → Type 0
  Fits b =
      IsSlot segs b.at
      × IsName (name b.sym)
      × (flags b.sym < 16)
      × ((ord : ℤ) → ordinal b.sym ≡ some ord → IsOrdinal ord)
      × IsI64 b.plus

  dylib_ops-IsOp :
      (new cur : Option ℤ)
      → ((ord : ℤ) → new ≡ some ord → IsOrdinal ord)
      → All IsOp (dylib_ops new cur).0
  unfolding dylib_ops
  dylib_ops-IsOp none cur h = tt
  dylib_ops-IsOp (some ord) none h = (h ord refl, tt)
  dylib_ops-IsOp (some ord) (some cur) h = elim (Bool-cases (int_eq ord cur)) [
    | inl same ↦ rw same tt
    | inr other ↦ rw other (h ord refl, tt)
  ]

  symbol_ops-IsOp :
      (id f : ℕ) (cur : Option (ℕ × ℕ))
      → IsName (name id)
      → f < 16
      → All IsOp (symbol_ops name id f cur)
  unfolding symbol_ops
  symbol_ops-IsOp id f none hn hf = ((hn, hf), (tt, tt))
  symbol_ops-IsOp id f (some (cur_id, cur_flags)) hn hf =
      elim (Bool-cases (cur_id == id && cur_flags == f)) [
        | inl same ↦ rw same tt
        | inr other ↦ rw other ((hn, hf), tt)
      ]

  addend_ops-IsOp : (new cur : ℤ) → IsI64 new → All IsOp (addend_ops new cur)
  unfolding addend_ops
  addend_ops-IsOp new cur h = elim (Bool-cases (int_eq new cur)) [
    | inl same ↦ rw same tt
    | inr other ↦ rw other (h, tt)
  ]

  move_in-IsOp :
      (i off addr cur : ℕ) (cur_seg : Option ℕ)
      → i < 16
      → off < 2 ^ 64
      → All IsOp (move_in i off addr cur_seg cur).0
  unfolding move_in
  move_in-IsOp i off addr cur none hi ho = ((hi, ho), tt)
  move_in-IsOp i off addr cur (some k) hi ho = elim (Bool-cases (k == i)) [
    | inl same ↦ rw same (omega arith, tt)
    | inr other ↦ rw other ((hi, ho), tt)
  ]

  enter-IsOp :
      (addr cur : ℕ) (cur_seg : Option ℕ) (r : List Op × Option ℕ)
      → addr < 2 ^ 64
      → enter segs addr cur_seg cur ≡ some r
      → All IsOp r.0
  unfolding enter
  enter-IsOp addr cur cur_seg r ha h =
      let ((i, off), found, h') = >>=-eq-some (segment_and_offset segs addr) _ h in
      let (seg, at, sum, inside) = segment_and_offset-Locates segs addr i off found in
      subst (λ (s : List Op × Option ℕ). All IsOp s.0) (some_inj h')
        (move_in-IsOp i off addr cur cur_seg (omega (arith, get_elem?-lt segs i at)) (omega arith))

  addr_ops-IsOp :
      (addr cur : ℕ) (cur_seg : Option ℕ) (r : List Op × Option ℕ)
      → addr < 2 ^ 64
      → addr_ops segs addr cur_seg cur ≡ some r
      → All IsOp r.0
  unfolding addr_ops
  addr_ops-IsOp addr cur none r ha h = enter-IsOp addr cur none r ha h
  addr_ops-IsOp addr cur (some seg) r ha h = elim (Bool-cases (addr == cur)) [
    | inl same ↦
        let e : ◌≡◌ {A = Option (List Op × Option ℕ)} (some ([], some seg)) (some r) =
          rw same at h in
        subst (λ (s : List Op × Option ℕ). All IsOp s.0) (some_inj e) tt
    | inr other ↦ enter-IsOp addr cur (some seg) r ha (rw other at h)
  ]

  bind_one-IsOp :
      (st : BindState) (b : Bind) (r : List Op × BindState)
      → Fits b
      → bind_one segs name ordinal flags st b ≡ some r
      → All IsOp r.0
  unfolding bind_one
  bind_one-IsOp st b r (slot, hn, hf, ho, hp) h =
      let ((move, seg), moved, h') = >>=-eq-some (addr_ops segs b.at st.cur_seg st.cur_addr) _ h in
      let d = (dylib_ops (ordinal b.sym) st.cur_ordinal).0 in
      let s = symbol_ops name b.sym (flags b.sym) st.cur_symbol in
      let p = addend_ops b.plus st.cur_addend in
      let plus : All IsOp (p ++ bind ∷ []) =
        All-append IsOp p (bind ∷ []) (addend_ops-IsOp b.plus st.cur_addend hp) (tt, tt) in
      let moves : All IsOp (move ++ (p ++ bind ∷ [])) =
        All-append IsOp move (p ++ bind ∷ [])
          (addr_ops-IsOp b.at st.cur_addr st.cur_seg (move, seg) (omega (arith, slot.1)) moved)
          plus in
      let names : All IsOp (s ++ (move ++ (p ++ bind ∷ []))) =
        All-append IsOp s (move ++ (p ++ bind ∷ []))
          (symbol_ops-IsOp b.sym (flags b.sym) st.cur_symbol hn hf) moves in
      subst (λ (x : List Op × BindState). All IsOp x.0) (some_inj h')
        (All-append IsOp d (s ++ (move ++ (p ++ bind ∷ [])))
          (dylib_ops-IsOp (ordinal b.sym) st.cur_ordinal ho) names)

  pub bind_ops_loop-IsOp :
      (st : BindState) (binds : List Bind) (ops : List Op)
      → All Fits binds
      → bind_ops_loop segs name ordinal flags st binds ≡ some ops
      → All IsOp ops
  unfolding bind_ops_loop
  bind_ops_loop-IsOp st [] ops h e = subst (All IsOp) (some_inj e) tt
  bind_ops_loop-IsOp st (b ∷ binds) ops (h, hs) e =
      let ((move, st'), one, e') = >>=-eq-some (bind_one segs name ordinal flags st b) _ e in
      let (rest, more, last) = >>=-eq-some (bind_ops_loop segs name ordinal flags st' binds) _ e' in
      subst (All IsOp) (some_inj last) (
        All-append IsOp move rest (bind_one-IsOp st b (move, st') h one)
          (bind_ops_loop-IsOp st' binds rest hs more))

-- What the gathered binds must be like: each slot lies in a segment and inside the address space, no
-- name has a zero byte, each library is a 32-bit ordinal or a special one above -16, and each
-- addend is an i64.
abbrev pub Bindable : List Segment → (ℕ → List ℕ) → (ℕ → ℤ) → Bind → Type 0
Bindable segs name ordinal b =
    IsSlot segs b.at × IsName (name b.sym) × IsOrdinal (ordinal b.sym) × IsI64 b.plus

Bindable-Fits :
    (segs : List Segment) (few : length segs ≤ 16) (name : ℕ → List ℕ) (ordinal : ℕ → ℤ)
    (is_weak_ref : ℕ → Bool) (binds : List Bind)
    → All (Bindable segs name ordinal) binds
    → All (Fits segs few name (in_library ordinal) (import_flags is_weak_ref)) binds
Bindable-Fits segs few name ordinal is_weak_ref [] h = tt
Bindable-Fits segs few name ordinal is_weak_ref (b ∷ binds) ((slot, hn, ho, hp), hs) = (
  (slot, hn, ground arith, λ ord e. subst IsOrdinal (some_inj e) ho, hp),
  Bindable-Fits segs few name ordinal is_weak_ref binds hs,
)

Bindable-slots :
    (segs : List Segment) (name : ℕ → List ℕ) (ordinal : ℕ → ℤ) (binds : List Bind)
    → All (Bindable segs name ordinal) binds
    → All (λ b. IsSlot segs b.at) binds
Bindable-slots segs name ordinal [] h = tt
Bindable-slots segs name ordinal (b ∷ binds) (h, hs) =
    (h.0, Bindable-slots segs name ordinal binds hs)

Apart-sort_by :
    (segs : List Segment) (le : Bind → Bind → Bool) (binds : List Bind)
    → Apart segs binds
    → Apart segs (sort_by le binds)
Apart-sort_by segs le binds apart =
    All-sort_by le _ binds (All-weaken _ _ binds (λ a h. All-sort_by le _ binds h) apart)

-- With at most 16 segments, and binds whose slots lie in a segment and inside the address space,
-- whose names have no zero byte and whose libraries and addends fit their fields, and where no slot
-- begins a segment right where another slot ends: the stream is built, and the loader, which refuses
-- a bind outside the segment that it stands in, makes by it exactly the binds gathered, in the order
-- of the key (library, name, addend, address), each with its slot's address, its symbol's name and
-- flags, its addend and its library.
pub construct-bound :
    (segs : List Segment) (name : ℕ → List ℕ) (ordinal : ℕ → ℤ) (is_weak_ref : ℕ → Bool)
    (binds : List Bind)
    → length segs ≤ 16
    → All (Bindable segs name ordinal) binds
    → Apart segs binds
    → (bytes : List ℕ) × (sorted : List Bind) × (construct segs name ordinal is_weak_ref binds
        ≡ some bytes)
      × Perm sorted binds
      × Chain (KeyLe name ordinal) sorted
      × (bound_stream segs start bytes
          ≡ some (made_of segs name (in_library ordinal) (import_flags is_weak_ref) none sorted))
unfolding construct
construct-bound segs name ordinal is_weak_ref [] few h apart =
    ([], [], refl, Perm.refl [], tt, unfold bound_stream made_of in refl)
construct-bound segs name ordinal is_weak_ref (b ∷ binds) few h apart =
    let sorted = sort_by (bind_le name ordinal) (b ∷ binds) in
    let fit = All-sort_by (bind_le name ordinal) (Bindable segs name ordinal) (b ∷ binds) h in
    let apart' = Apart-sort_by segs (bind_le name ordinal) (b ∷ binds) apart in
    let (ops, built, runs) =
      bind_ops-bound segs name (in_library ordinal) (import_flags is_weak_ref) sorted
        (Bindable-slots segs name ordinal sorted fit) (Apart-Steps segs sorted apart') in
    let fits =
      bind_ops_loop-IsOp segs few name (in_library ordinal) (import_flags is_weak_ref) _ sorted ops
        (Bindable-Fits segs few name ordinal is_weak_ref sorted fit) (unfold bind_ops in built) in
    let (bytes, coded, reads) = encode-bound segs start ops fits in
    (
      bytes,
      sorted,
      rw (built, coded) refl,
      sort_by-Perm (bind_le name ordinal) (b ∷ binds),
      sort_by-Chain (bind_le name ordinal) (KeyLe name ordinal) (bind_le-true name ordinal)
          (bind_le-false name ordinal) (b ∷ binds),
      reads ∙ runs,
    )
