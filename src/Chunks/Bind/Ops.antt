-- ===== src/Chunks/Bind/Ops.antt =====
-- The opcodes of `bind_ops` make the loader bind each slot with its own library, symbol and addend.
use mold_macho.Chunks.Bind.{
  Op, bind, Bind, BindState, int_eq, dylib_ops, addend_ops, symbol_ops, bind_one, bind_ops_loop,
  bind_ops,
}
use mold_macho.Chunks.Bind.Machine.{bound, Dyld}
use mold_macho.Chunks.Bind.Moves.{machine, Steps, Linked, Step, Steps-head, addr_ops-Moves}
use mold_macho.Chunks.Rebase.Ops.{IsSlot}
use mold_macho.Chunks.Segments.{Segment}
use mold_macho.Prelude.{
  ◌^◌, Option, Bool-cases, ◌==◌, ◌≡◌, ℕ, [], inl, refl, arith, none, sym, ◌∷◌, inr, ◌++◌, Bool,
  List, true, ◌+◌, some, ◌&&◌, ◌≤◌, ==_iff, ap, false, ◌∙◌, append_assoc, leb, le→leb, lt→ltb, ltb,
}
use mold_macho.Prelude.Bytes.{All}
use mold_macho.Prelude.Fallible.{is_some, ◌>>=◌}
use mold_macho.Prelude.Int.{negsuc, ℤ, pos}
use mold_macho.Util.SipHash.{new}

-- The library that a symbol binds to: its own, or the one set last if the stream names none for it.
abbrev pub later : Option ℤ → Option ℤ → Option ℤ
later none cur = cur
later (some ord) cur = some ord

-- The name and flags of the current symbol.
abbrev named : (ℕ → List ℕ) → Option (ℕ × ℕ) → Option (List ℕ × ℕ)
named name none = none
named name (some (id, flags)) = some (name id, flags)

int_eq-eq : (a b : ℤ) → int_eq a b ≡ true → a ≡ b
unfolding int_eq
int_eq-eq (pos m) (pos n) h = ap pos ((==_iff m n).0 h)
int_eq-eq (pos m) (negsuc n) h = cc
int_eq-eq (negsuc m) (pos n) h = cc
int_eq-eq (negsuc m) (negsuc n) h = ap negsuc ((==_iff m n).0 h)

dylib_ops-later : (new cur : Option ℤ) → (dylib_ops new cur).1 ≡ later new cur
unfolding dylib_ops
dylib_ops-later none cur = refl
dylib_ops-later (some ord) none = refl
dylib_ops-later (some ord) (some cur) = elim (Bool-cases (int_eq ord cur)) [
  | inl same ↦ rw same (ap some (sym (int_eq-eq ord cur same)))
  | inr other ↦ rw other refl
]

module _ (segs : List Segment) (lo hi : ℕ) (ops : List Op) where
  dylib_step :
      (new cur : Option ℤ) (s : Option (List ℕ × ℕ)) (t : Bool) (a : ℕ) (p : ℤ)
      → bound segs lo hi (machine cur s t a p) ((dylib_ops new cur).0 ++ ops)
        ≡ bound segs lo hi (machine (later new cur) s t a p) ops
  unfolding dylib_ops bound
  dylib_step none cur s t a p = refl
  dylib_step (some ord) none s t a p = refl
  dylib_step (some ord) (some cur) s t a p = elim (Bool-cases (int_eq ord cur)) [
    | inl same ↦ rw (same, int_eq-eq ord cur same) refl
    | inr other ↦ rw other refl
  ]

  symbol_step :
      (name : ℕ → List ℕ) (id flags : ℕ) (cur : Option (ℕ × ℕ)) (o : Option ℤ) (a : ℕ) (p : ℤ)
      → bound segs lo hi
          (machine o (named name cur) (is_some cur) a p)
          (symbol_ops name id flags cur ++ ops)
        ≡ bound segs lo hi (machine o (some (name id, flags)) true a p) ops
  unfolding symbol_ops bound
  symbol_step name id flags none o a p = refl
  symbol_step name id flags (some (cur_id, cur_flags)) o a p =
      elim (Bool-cases (cur_id == id && cur_flags == flags)) [
        | inl same ↦
            let e : cur_id ≡ id = ground arith in
            let e' : cur_flags ≡ flags = ground arith in rw (same, e, e') refl
        | inr other ↦ rw other refl
      ]

  addend_step :
      (new cur : ℤ) (o : Option ℤ) (s : Option (List ℕ × ℕ)) (t : Bool) (a : ℕ)
      → bound segs lo hi (machine o s t a cur) (addend_ops new cur ++ ops)
        ≡ bound segs lo hi (machine o s t a new) ops
  unfolding addend_ops bound
  addend_step new cur o s t a = elim (Bool-cases (int_eq new cur)) [
    | inl same ↦ rw (same, int_eq-eq new cur same) refl
    | inr other ↦ rw other refl
  ]

module _ (segs : List Segment) (name : ℕ → List ℕ) (ordinal : ℕ → Option ℤ) (flags : ℕ → ℕ) where
  -- What the loader is to write: each bind with its slot's address, its symbol's name and flags,
  -- its addend, and its library.
  unfoldable pub made_of : Option ℤ → List Bind → List Dyld
  made_of cur [] = []
  made_of cur (b ∷ binds) =
      let ord = later (ordinal b.sym) cur in
      machine ord (some (name b.sym, flags b.sym)) true b.at b.plus ∷ made_of ord binds

  abbrev dyld_of : BindState → Dyld
  dyld_of st =
      machine st.cur_ordinal (named name st.cur_symbol) (is_some st.cur_symbol) st.cur_addr
        st.cur_addend

  bind_one-bound :
      (st : BindState) (b : Bind) (lo hi : ℕ) (last : Option ℕ)
      → IsSlot segs b.at
      → st.cur_addr ≤ 2 ^ 64
      → Linked segs last st.cur_seg st.cur_addr lo hi
      → Step segs last b.at
      → (r : List Op × BindState) × (bind_one segs name ordinal flags st b ≡ some r)
        × (r.1.cur_addr ≡ b.at + 8)
        × (r.1.cur_ordinal ≡ later (ordinal b.sym) st.cur_ordinal)
        × (lo' : ℕ) × (hi' : ℕ) × Linked segs (some b.at) r.1.cur_seg r.1.cur_addr lo' hi'
        × ((ops : List Op)
            → bound segs lo hi (dyld_of st) (r.0 ++ ops) ≡ (
                bound segs lo' hi' (dyld_of r.1) ops >>= (λ made. some (
                  machine
                    (later (ordinal b.sym) st.cur_ordinal)
                    (some (name b.sym, flags b.sym))
                    true
                    b.at
                    b.plus
                  ∷ made))))
  unfolding bind_one
  bind_one-bound st b lo hi last slot hc linked next =
      let ((move, seg), moved, steps) =
        addr_ops-Moves segs b.at st.cur_addr lo hi last st.cur_seg slot hc linked next in
      let (lo', hi', moves, low, high, linked') = steps in
      let low' : leb lo' b.at ≡ true = le→leb lo' b.at low in
      let high' : ltb b.at hi' ≡ true = lt→ltb b.at hi' high in
      let d = (dylib_ops (ordinal b.sym) st.cur_ordinal).0 in
      let s = symbol_ops name b.sym (flags b.sym) st.cur_symbol in
      let p = addend_ops b.plus st.cur_addend in
      let step = dylib_ops-later (ordinal b.sym) st.cur_ordinal in
      let st' : BindState = record {
        cur_ordinal = (dylib_ops (ordinal b.sym) st.cur_ordinal).1;
        cur_symbol = some (b.sym, flags b.sym);
        cur_seg = seg;
        cur_addr = b.at + 8;
        cur_addend = b.plus;
      } in
      (
        (d ++ (s ++ (move ++ (p ++ bind ∷ []))), st'),
        rw moved refl,
        refl,
        step,
        lo',
        hi',
        linked',
        λ ops.
            rw
              (
                append_assoc d (s ++ (move ++ (p ++ bind ∷ []))) ops,
                append_assoc s (move ++ (p ++ bind ∷ [])) ops,
                append_assoc move (p ++ bind ∷ []) ops,
                append_assoc p (bind ∷ []) ops,
                dylib_step segs lo hi (s ++ (move ++ (p ++ (bind ∷ ops)))) (ordinal b.sym)
                    st.cur_ordinal (named name st.cur_symbol) (is_some st.cur_symbol) st.cur_addr
                    st.cur_addend,
                symbol_step segs lo hi (move ++ (p ++ (bind ∷ ops))) name b.sym (flags b.sym)
                    st.cur_symbol (later (ordinal b.sym) st.cur_ordinal) st.cur_addr st.cur_addend,
                moves (later (ordinal b.sym) st.cur_ordinal) (some (name b.sym, flags b.sym)) true
                    st.cur_addend (p ++ (bind ∷ ops)),
                addend_step segs lo' hi' (bind ∷ ops) b.plus st.cur_addend
                    (later (ordinal b.sym) st.cur_ordinal) (some (name b.sym, flags b.sym)) true
                    b.at,
                step,
              )
              (unfold bound in rw (low', high') refl),
      )

  bind_ops_loop-bound :
      (st : BindState) (binds : List Bind) (lo hi : ℕ) (last : Option ℕ)
      → st.cur_addr ≤ 2 ^ 64
      → Linked segs last st.cur_seg st.cur_addr lo hi
      → All (λ b. IsSlot segs b.at) binds
      → Steps segs last binds
      → (ops : List Op) × (bind_ops_loop segs name ordinal flags st binds ≡ some ops)
        × (bound segs lo hi (dyld_of st) ops ≡ some (made_of st.cur_ordinal binds))
  unfolding bind_ops_loop made_of
  bind_ops_loop-bound st [] lo hi last hc linked h steps = ([], refl, unfold bound in refl)
  bind_ops_loop-bound st (b ∷ binds) lo hi last hc linked (h, hs) steps =
      let (step, steps') = Steps-head segs last b binds steps in
      let ((move, st'), one, at, ord, lo', hi', linked', runs) =
        bind_one-bound st b lo hi last h hc linked step in
      let (ops, rest, made) =
        bind_ops_loop-bound st' binds lo' hi' (some b.at) (omega (arith, h.1)) linked' hs steps' in
      (move ++ ops, rw (one, rest) refl, runs ops ∙ rw (made, ord) refl)

-- The loader before the stream.
abbrev pub start : Dyld
start = machine none none false 0 (pos 0)

-- For binds whose slots all lie in a segment and inside the address space, where a bind whose slot
-- follows the one before it without a gap is in the same segment, `bind_ops` gives opcodes, and by
-- them the loader, which refuses a bind outside the segment that it stands in, makes exactly those
-- binds in their order, each with its slot's address, its symbol's name and flags, its addend, and
-- the library of its symbol.
pub bind_ops-bound :
    (segs : List Segment) (name : ℕ → List ℕ) (ordinal : ℕ → Option ℤ) (flags : ℕ → ℕ)
    (binds : List Bind)
    → All (λ b. IsSlot segs b.at) binds
    → Steps segs none binds
    → (ops : List Op) × (bind_ops segs name ordinal flags binds ≡ some ops)
      × (bound segs 0 0 start ops ≡ some (made_of segs name ordinal flags none binds))
unfolding bind_ops
bind_ops-bound segs name ordinal flags binds h steps =
    bind_ops_loop-bound segs name ordinal flags _ binds 0 0 none (omega arith) refl h steps
