-- ===== src/Chunks/Bind/Moves.antt =====
-- The moves of `bind_ops` from slot to slot, and the segment that the loader is then in.
use mathlib.Core.Path.{subst}
use mold_macho.Chunks.Bind.{Op, seg_offset, Bind, move_in, addr_ops, enter, add_addr}
use mold_macho.Chunks.Bind.Machine.{bound, Dyld}
use mold_macho.Chunks.Rebase.Ops.{wraps, IsSlot}
use mold_macho.Chunks.Segments.{segment_and_offset-Locates, segment_and_offset, Segment}
use mold_macho.Prelude.{
  ◌^◌, Option, Bool-cases, ◌==◌, ◌≡◌, ℕ, [], inl, refl, arith, none, sym, ◌∷◌, inr, get_elem?, ◌++◌,
  Bool, List, ◌+◌, some, ◌≤◌, ==_iff, ap, ◌∙◌, ◌<◌, ◌-◌, ◌%◌,
}
use mold_macho.Prelude.Bytes.{All, All-weaken}
use mold_macho.Prelude.Fallible.{some_of_ne, some_inj}
use mold_macho.Prelude.Int.{ℤ}

abbrev pub machine : Option ℤ → Option (List ℕ × ℕ) → Bool → ℕ → ℤ → Dyld
machine o s t a p = record { ordinal = o; symbol_name = s; typed = t; address = a; plus = p }

-- The address lies in the segment of another.
abbrev pub SameSegment : List Segment → ℕ → ℕ → Type 0
SameSegment segs last addr =
    (i off : ℕ)
    → segment_and_offset segs last ≡ some (i, off)
    → (off' : ℕ) × (segment_and_offset segs addr ≡ some (i, off'))

-- A bind whose slot follows the slot before it is in the same segment.
abbrev pub Steps : List Segment → Option ℕ → List Bind → Type 0
Steps segs last [] = Unit
Steps segs none (b ∷ binds) = Steps segs (some b.at) binds
Steps segs (some last) (b ∷ binds) =
    (b.at ≡ last + 8 → SameSegment segs last b.at) × Steps segs (some b.at) binds

-- No slot begins a segment right where another slot ends, in the segment before.
abbrev pub Apart : List Segment → List Bind → Type 0
Apart segs binds = All (λ a. All (λ b. b.at ≡ a.at + 8 → SameSegment segs a.at b.at) binds) binds

Steps-from :
    (segs : List Segment) (last : ℕ) (binds : List Bind)
    → All (λ b. b.at ≡ last + 8 → SameSegment segs last b.at) binds
    → Apart segs binds
    → Steps segs (some last) binds
Steps-from segs last [] h apart = tt
Steps-from segs last (b ∷ binds) (h, hs) (here, rest) =
    (h, Steps-from segs b.at binds here.1 (All-weaken _ _ binds (λ a k. k.1) rest))

pub Apart-Steps :
    (segs : List Segment) (binds : List Bind) → Apart segs binds → Steps segs none binds
Apart-Steps segs [] apart = tt
Apart-Steps segs (b ∷ binds) (here, rest) =
    Steps-from segs b.at binds here.1 (All-weaken _ _ binds (λ a k. k.1) rest)

-- The bounds of a segment.
abbrev Window : List Segment → ℕ → ℕ → ℕ → Type 0
Window segs i lo hi =
    (seg : Segment) × (get_elem? segs i ≡ some seg)
    × (lo ≡ seg.vmaddr)
    × (hi ≡ seg.vmaddr + seg.vmsize)

-- The current segment is that of the last slot, and the loader has its bounds.
abbrev pub Linked : List Segment → Option ℕ → Option ℕ → ℕ → ℕ → ℕ → Type 0
Linked segs none cur_seg cur lo hi = cur_seg ≡ none
Linked segs (some last) cur_seg cur lo hi =
    (cur ≡ last + 8)
    × (i : ℕ) × (off : ℕ) × (cur_seg ≡ some i)
    × (segment_and_offset segs last ≡ some (i, off))
    × Window segs i lo hi

-- What a step from the last slot to the next one needs.
abbrev pub Step : List Segment → Option ℕ → ℕ → Type 0
Step segs none addr = Unit
Step segs (some last) addr = addr ≡ last + 8 → SameSegment segs last addr

pub Steps-head :
    (segs : List Segment) (last : Option ℕ) (b : Bind) (binds : List Bind)
    → Steps segs last (b ∷ binds)
    → Step segs last b.at × Steps segs (some b.at) binds
Steps-head segs none b binds h = (tt, h)
Steps-head segs (some last) b binds h = h

module _ (segs : List Segment) where
  -- The machine moves from `cur` to `addr` by these opcodes, and into the segment that is then
  -- current, which has the address.
  abbrev pub Moves : ℕ → ℕ → ℕ → ℕ → List Op × Option ℕ → Type 0
  Moves lo hi cur addr (move, cur_seg) =
      (lo' : ℕ) × (hi' : ℕ) × ((o : Option ℤ) (s : Option (List ℕ × ℕ)) (t : Bool) (p : ℤ)
          (ops : List Op)
        → bound segs lo hi (machine o s t cur p) (move ++ ops)
          ≡ bound segs lo' hi' (machine o s t addr p) ops)
      × (lo' ≤ addr)
      × (addr < hi')
      × Linked segs (some addr) cur_seg (addr + 8) lo' hi'

  module _ (seg : Segment) (i off lo hi cur addr : ℕ) (at : get_elem? segs i ≡ some seg)
      (sum : seg.vmaddr + off ≡ addr) (inside : off < seg.vmsize)
      (found : segment_and_offset segs addr ≡ some (i, off)) where
    enter_new : Moves lo hi cur addr (seg_offset i off ∷ [], some i)
    unfolding bound
    enter_new = (
      seg.vmaddr,
      seg.vmaddr + seg.vmsize,
      λ o s t p ops. rw (at, sum) refl,
      omega arith,
      omega arith,
      (refl, i, off, refl, found, (seg, at, refl, refl)),
    )

    enter_same :
        (lo ≡ seg.vmaddr)
        → (hi ≡ seg.vmaddr + seg.vmsize)
        → addr + 8 ≤ 2 ^ 64
        → cur ≤ 2 ^ 64
        → Moves lo hi cur addr (add_addr ((addr + 2 ^ 64 - cur) % 2 ^ 64) ∷ [], some i)
    unfolding bound
    enter_same low high fits hc = (
      lo,
      hi,
      λ o s t p ops.
          ap (λ b. bound segs lo hi (machine o s t b p) ops) (wraps addr cur (omega arith) hc),
      omega arith,
      omega arith,
      (refl, i, off, refl, found, (seg, at, low, high)),
    )

    move_in-Moves :
        (last cur_seg : Option ℕ)
        → addr + 8 ≤ 2 ^ 64
        → cur ≤ 2 ^ 64
        → Linked segs last cur_seg cur lo hi
        → Moves lo hi cur addr (move_in i off addr cur_seg cur)
    unfolding move_in
    move_in-Moves last none fits hc linked = enter_new
    move_in-Moves none (some k) fits hc linked = absurd cc
    move_in-Moves (some last) (some k) fits hc (e, j, off', is_seg, found', window) =
        elim (Bool-cases (k == i)) [
          | inl same ↦
              let ek : k ≡ i = (==_iff k i).0 same in
              let ej : j ≡ i = sym (some_inj is_seg) ∙ ek in
              let (seg', at', low, high) = window in
              let es : seg' ≡ seg = some_inj (sym at' ∙ (ap (get_elem? segs) ej ∙ at)) in
              rw (same, ek)
                (enter_same (low ∙ ap (λ (x : Segment). x.vmaddr) es)
                  (high ∙ ap (λ (x : Segment). x.vmaddr + x.vmsize) es) fits hc)
          | inr other ↦ rw other enter_new
        ]

  enter-Moves :
      (addr cur lo hi : ℕ) (last cur_seg : Option ℕ)
      → IsSlot segs addr
      → cur ≤ 2 ^ 64
      → Linked segs last cur_seg cur lo hi
      → (r : List Op × Option ℕ) × (enter segs addr cur_seg cur ≡ some r) × Moves lo hi cur addr r
  unfolding enter
  enter-Moves addr cur lo hi last cur_seg (mapped, fits) hc linked =
      let ((i, off), found) = some_of_ne (segment_and_offset segs addr) mapped in
      let (seg, at, sum, inside) = segment_and_offset-Locates segs addr i off found in
      (
        move_in i off addr cur_seg cur,
        rw found refl,
        move_in-Moves seg i off lo hi cur addr at sum inside found last cur_seg fits hc linked,
      )

  -- The next slot in the same segment.
  stay :
      (addr last lo hi : ℕ) (cur_seg : Option ℕ)
      → addr ≡ last + 8
      → SameSegment segs last addr
      → Linked segs (some last) cur_seg addr lo hi
      → Moves lo hi addr addr ([], cur_seg)
  stay addr last lo hi cur_seg e same (e', i, off, is_seg, found, window) =
      let (off', next) = same i off found in
      let (seg, at, sum, inside) = segment_and_offset-Locates segs addr i off' next in
      let (seg', at', low, high) = window in
      let es : seg' ≡ seg = some_inj (sym at' ∙ at) in
      let low' : lo ≡ seg.vmaddr = low ∙ ap (λ (x : Segment). x.vmaddr) es in
      let high' : hi ≡ seg.vmaddr + seg.vmsize =
        high ∙ ap (λ (x : Segment). x.vmaddr + x.vmsize) es in
      (lo, hi, λ o s t p ops. refl, omega arith, omega arith, (refl, i, off', is_seg, next, window))

  pub addr_ops-Moves :
      (addr cur lo hi : ℕ) (last cur_seg : Option ℕ)
      → IsSlot segs addr
      → cur ≤ 2 ^ 64
      → Linked segs last cur_seg cur lo hi
      → Step segs last addr
      → (r : List Op × Option ℕ) × (addr_ops segs addr cur_seg cur ≡ some r)
        × Moves lo hi cur addr r
  unfolding addr_ops
  addr_ops-Moves addr cur lo hi last none slot hc linked step =
      enter-Moves addr cur lo hi last none slot hc linked
  addr_ops-Moves addr cur lo hi none (some seg) slot hc linked step = absurd cc
  addr_ops-Moves addr cur lo hi (some last) (some seg) slot hc linked step =
      elim (Bool-cases (addr == cur)) [
        | inl same ↦
            let e : addr ≡ cur = (==_iff addr cur).0 same in
            let e' : addr ≡ last + 8 = e ∙ linked.0 in
            rw same (
              ([], some seg),
              refl,
              subst (λ (c : ℕ). Moves lo hi c addr ([], some seg)) e
                  (stay addr last lo hi (some seg) e' (step e')
                    (subst (λ (c : ℕ). Linked segs (some last) (some seg) c lo hi) (sym e) linked)),
            )
        | inr other ↦ rw other (enter-Moves addr cur lo hi (some last) (some seg) slot hc linked)
      ]
