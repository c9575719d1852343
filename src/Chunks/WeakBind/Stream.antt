-- ===== src/Chunks/WeakBind/Stream.antt =====
-- What the loader makes of the weak bind stream.
use mathlib.Core.List.{Perm}
use mold_macho.Chunks.Bind.{
  Bind, Op, symbol, bind, bind_ops, bind_ops_loop, bind_one, addr_ops, addend_ops, BindState,
  pointer_type, encode, dylib_ops, symbol_ops,
}
use mold_macho.Chunks.Bind.Construct.{bind_ops_loop-IsOp, Fits}
use mold_macho.Chunks.Bind.Key.{weak_le-true, weak_le-false, WeakLe}
use mold_macho.Chunks.Bind.Machine.{Dyld, bound, bound_stream}
use mold_macho.Chunks.Bind.Moves.{Apart-Steps, Apart}
use mold_macho.Chunks.Bind.Ops.{start, bind_ops-bound, made_of}
use mold_macho.Chunks.Bind.Stream.{encode-bound, IsOp, IsName}
use mold_macho.Chunks.Rebase.Ops.{IsSlot}
use mold_macho.Chunks.Segments.{Segment}
use mold_macho.Chunks.WeakBind.{
  WeakBind, as_bind, override_ops, weak_ops, construct, no_library, no_flags, name_le, weak_le,
  non_weak,
}
use mold_macho.Prelude.{
  some, ◌≡◌, [], ℕ, ◌∙◌, none, List, inl, refl, ◌++◌, ◌⊎◌, ◌∷◌, sym, inr, map, ap, arith, length,
  ◌≤◌, Bool,
}
use mold_macho.Prelude.Bytes.{All, All-append, All-weaken, All-map}
use mold_macho.Prelude.Fallible.{◌>>=◌, >>=-eq-some, some_inj}
use mold_macho.Prelude.SortBy.{sort_by, All-sort_by, Chain, sort_by-Perm, sort_by-Chain}

-- A slot in a segment and inside the address space, and a name without a zero byte.
abbrev pub IsWeakBind : List Segment → (ℕ → List ℕ) → WeakBind → Type 0
IsWeakBind segs name b = IsSlot segs b.1 × IsName (name b.0)

-- A symbol opcode first: what the loader had as its symbol does not matter.
abbrev StartsNamed : List Op → Type 0
StartsNamed ops =
    (ops ≡ []) ⊎ ((n : List ℕ) × (f : ℕ) × (rest : List Op) × (ops ≡ symbol n f ∷ rest))

bind_one-named :
    (segs : List Segment) (name : ℕ → List ℕ) (st : BindState) (b : Bind) (r : List Op × BindState)
    → st.cur_symbol ≡ none
    → bind_one segs name no_library no_flags st b ≡ some r
    → (n : List ℕ) × (f : ℕ) × (rest : List Op) × (r.0 ≡ symbol n f ∷ rest)
unfolding bind_one dylib_ops symbol_ops
bind_one-named segs name st b r fresh h =
    let ((move, seg), moved, made) = >>=-eq-some (addr_ops segs b.at st.cur_seg st.cur_addr) _ h in
    let plus = addend_ops b.plus st.cur_addend ++ bind ∷ [] in
    let e : symbol_ops name b.sym 0 st.cur_symbol ++ (move ++ plus) ≡ r.0 =
      ap (λ (x : List Op × BindState). x.0) (some_inj made) in
    (
      name b.sym,
      0,
      pointer_type ∷ (move ++ plus),
      sym e ∙ ap (λ c. symbol_ops name b.sym 0 c ++ (move ++ plus)) fresh,
    )

bind_ops_loop-StartsNamed :
    (segs : List Segment) (name : ℕ → List ℕ) (st : BindState) (binds : List Bind) (ops : List Op)
    → st.cur_symbol ≡ none
    → bind_ops_loop segs name no_library no_flags st binds ≡ some ops
    → StartsNamed ops
unfolding bind_ops_loop
bind_ops_loop-StartsNamed segs name st [] ops fresh h = inl (sym (some_inj h))
bind_ops_loop-StartsNamed segs name st (b ∷ binds) ops fresh h =
    let ((first, st'), one, h') = >>=-eq-some (bind_one segs name no_library no_flags st b) _ h in
    let (rest, more, last) =
      >>=-eq-some (bind_ops_loop segs name no_library no_flags st' binds) _ h' in
    let (n, f, after, e) = bind_one-named segs name st b (first, st') fresh one in
    inr (n, f, after ++ rest, sym (some_inj last) ∙ ap (λ l. l ++ rest) e)

overrides_bound :
    (segs : List Segment) (name : ℕ → List ℕ) (overrides : List ℕ) (m : Dyld) (ops : List Op)
    → StartsNamed ops
    → bound segs 0 0 m (override_ops name overrides ++ ops) ≡ bound segs 0 0 m ops
unfolding bound override_ops
overrides_bound segs name [] m ops h = refl
overrides_bound segs name (id ∷ overrides) m ops (inl e) = rw e (
    overrides_bound segs name overrides (record m { symbol_name = some (name id, non_weak) }) []
      (inl refl))
overrides_bound segs name (id ∷ overrides) m ops (inr (n, f, rest, e)) =
    overrides_bound segs name overrides (record m { symbol_name = some (name id, non_weak) }) ops
      (inr (n, f, rest, e))
    ∙ rw e refl

override_ops-IsOp :
    (name : ℕ → List ℕ) (overrides : List ℕ)
    → All (λ id. IsName (name id)) overrides
    → All IsOp (override_ops name overrides)
unfolding override_ops
override_ops-IsOp name [] h = tt
override_ops-IsOp name (id ∷ overrides) (h, hs) =
    ((h, omega arith), override_ops-IsOp name overrides hs)

binds-Fits :
    (segs : List Segment) (few : length segs ≤ 16) (name : ℕ → List ℕ) (binds : List WeakBind)
    → All (IsWeakBind segs name) binds
    → All (Fits segs few name no_library no_flags) (map as_bind binds)
      × All (λ b. IsSlot segs b.at) (map as_bind binds)
binds-Fits segs few name [] h = (tt, tt)
binds-Fits segs few name (b ∷ binds) ((slot, hn), hs) =
    let (fits, slots) = binds-Fits segs few name binds hs in
    (
      (
        (slot, hn, omega arith, λ ord e. let e' : none ≡ some ord = e in absurd cc, omega arith),
        fits,
      ),
      (slot, slots),
    )

Apart-sorted :
    (segs : List Segment) (le : WeakBind → WeakBind → Bool) (binds : List WeakBind)
    → Apart segs (map as_bind binds)
    → Apart segs (map as_bind (sort_by le binds))
Apart-sorted segs le binds apart = (All-map _ as_bind (sort_by le binds)).1 (
    All-sort_by le _ binds (
      All-weaken _ _ binds
        (λ a h.
          (All-map _ as_bind (sort_by le binds)).1
            (All-sort_by le _ binds ((All-map _ as_bind binds).0 h)))
        ((All-map _ as_bind binds).0 apart)))

weak_ops-bound :
    (segs : List Segment) (name : ℕ → List ℕ) (overrides : List ℕ) (binds : List WeakBind)
    → length segs ≤ 16
    → All (λ id. IsName (name id)) overrides
    → All (IsWeakBind segs name) binds
    → Apart segs (map as_bind binds)
    → (bytes : List ℕ) × ((weak_ops segs name overrides binds >>= encode) ≡ some bytes)
      × (bound_stream segs start bytes
          ≡ some (
              made_of segs name no_library no_flags none
                (map as_bind (sort_by (weak_le name) binds))))
unfolding weak_ops bind_ops
weak_ops-bound segs name overrides binds few named fit apart =
    let sorted = sort_by (weak_le name) binds in
    let (fits, slots) =
      binds-Fits segs few name sorted
        (All-sort_by (weak_le name) (IsWeakBind segs name) binds fit) in
    let (ops, built, runs) =
      bind_ops-bound segs name no_library no_flags (map as_bind sorted) slots
        (Apart-Steps segs (map as_bind sorted) (Apart-sorted segs (weak_le name) binds apart)) in
    let first = override_ops name (sort_by (name_le name) overrides) in
    let are_ops =
      All-append IsOp first ops
        (override_ops-IsOp name (sort_by (name_le name) overrides)
          (All-sort_by (name_le name) (λ id. IsName (name id)) overrides named))
        (bind_ops_loop-IsOp segs few name no_library no_flags _ (map as_bind sorted) ops fits
          built) in
    let (bytes, coded, reads) = encode-bound segs start (first ++ ops) are_ops in
    let named_ops = bind_ops_loop-StartsNamed segs name _ (map as_bind sorted) ops refl built in
    (
      bytes,
      rw (built, coded) refl,
      reads
          ∙ overrides_bound segs name (sort_by (name_le name) overrides) start ops named_ops
          ∙ runs,
    )

construct_sorted :
    (segs : List Segment) (name : ℕ → List ℕ) (overrides : List ℕ) (binds : List WeakBind)
    → length segs ≤ 16
    → All (λ id. IsName (name id)) overrides
    → All (IsWeakBind segs name) binds
    → Apart segs (map as_bind binds)
    → (bytes : List ℕ) × (construct segs name overrides binds ≡ some bytes)
      × (bound_stream segs start bytes
          ≡ some (
              made_of segs name no_library no_flags none
                (map as_bind (sort_by (weak_le name) binds))))
unfolding construct
construct_sorted segs name [] [] few named fit apart =
    ([], refl, unfold bound_stream sort_by made_of in refl)
construct_sorted segs name [] (b ∷ binds) few named fit apart =
    weak_ops-bound segs name [] (b ∷ binds) few named fit apart
construct_sorted segs name (id ∷ overrides) binds few named fit apart =
    weak_ops-bound segs name (id ∷ overrides) binds few named fit apart

-- With at most 16 segments, names without a zero byte, and slots in a segment and inside the address
-- space, where no slot begins a segment right where another slot ends: the weak bind stream is built,
-- and the loader, which refuses a bind outside the segment that it stands in, makes by it exactly
-- the binds gathered, in the order of the key (name, address), each with its symbol's name, no addend
-- and no library; the overrides before them make none and do not disturb them.
pub construct-bound_stream :
    (segs : List Segment) (name : ℕ → List ℕ) (overrides : List ℕ) (binds : List WeakBind)
    → length segs ≤ 16
    → All (λ id. IsName (name id)) overrides
    → All (IsWeakBind segs name) binds
    → Apart segs (map as_bind binds)
    → (bytes : List ℕ) × (sorted : List WeakBind) × (construct segs name overrides binds
        ≡ some bytes)
      × Perm sorted binds
      × Chain (WeakLe name) sorted
      × (bound_stream segs start bytes
          ≡ some (made_of segs name no_library no_flags none (map as_bind sorted)))
construct-bound_stream segs name overrides binds few named fit apart =
    let (bytes, built, reads) = construct_sorted segs name overrides binds few named fit apart in
    (
      bytes,
      sort_by (weak_le name) binds,
      built,
      sort_by-Perm (weak_le name) binds,
      sort_by-Chain (weak_le name) (WeakLe name) (weak_le-true name) (weak_le-false name) binds,
      reads,
    )
