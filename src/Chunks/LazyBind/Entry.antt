-- ===== src/Chunks/LazyBind/Entry.antt =====
-- The loader enters a lazy-bind record at its offset and makes that stub's bind alone.
use mathlib.Core.Path.{subst}
use mold_macho.Chunks.Bind.{dylib, symbol, seg_offset, bind, Op, import_flags}
use mold_macho.Chunks.Bind.Machine.{bound, bound_stream, Dyld}
use mold_macho.Chunks.Bind.Moves.{machine}
use mold_macho.Chunks.Bind.Stream.{
  IsOp, IsName, IsOrdinal, codes_of, encode_ops-codes, read_ops-codes, length-codes_of,
  bound_stream-read,
}
use mold_macho.Chunks.LazyBind.{construct, LazyStub, lazy_record, lazy_loop}
use mold_macho.Chunks.Rebase.Construct.{get_elem?-lt}
use mold_macho.Chunks.Rebase.Ops.{IsSlot}
use mold_macho.Chunks.Segments.{Segment, segment_and_offset-Locates, segment_and_offset}
use mold_macho.Prelude.{
  ℕ, refl, drop, [], suc, ◌∙◌, ◌++◌, append-nil, ◌≤◌, some, append_assoc, length-append, true, ◌+◌,
  ◌%◌, none, ◌≡◌, ◌^◌, Bool, ◌∷◌, ap, ◌<◌, List, arith, length, ◌-◌, sym, replicate, lt→ltb, le→leb,
}
use mold_macho.Prelude.Bytes.{All, pad_to}
use mold_macho.Prelude.Fallible.{some_of_ne}
use mold_macho.Prelude.Int.{pos, ℤ}

-- The loader at the start of a record: the type is a pointer unless it is set.
abbrev pub lazy_start : Dyld
lazy_start = machine none none true 0 (pos 0)

drop-length {ℓ} : {A : Type ℓ} (xs ys : List A) → drop (length xs) (xs ++ ys) ≡ ys
drop-length [] ys = refl
drop-length (x ∷ xs) ys = drop-length xs ys

unpadded : (buf : List ℕ) → length (pad_to 8 buf) < 2 ^ 32 → length buf < 2 ^ 32
unfolding pad_to
unpadded buf h = omega (arith, length-append buf (replicate ((8 - length buf % 8) % 8) 0))

module _ (segs : List Segment) (name : ℕ → List ℕ) (ordinal : ℕ → ℤ) (is_weak_ref : ℕ → Bool) where
  -- The bind that a stub is to get.
  abbrev pub bind_of_stub : LazyStub → Dyld
  bind_of_stub stub =
      machine (some (ordinal stub.stub_sym))
        (some (name stub.stub_sym, import_flags is_weak_ref stub.stub_sym)) true stub.ptr_addr
        (pos 0)

  -- The stub's lazy pointer lies in a segment, and its name and library fit the record.
  abbrev pub IsStub : LazyStub → Type 0
  IsStub stub =
      IsSlot segs stub.ptr_addr × IsName (name stub.stub_sym) × IsOrdinal (ordinal stub.stub_sym)

  -- Entered at its offset, each stub's record binds it alone.
  abbrev pub Enters : List ℕ → List LazyStub → List ℕ → Type 0
  Enters bytes [] offsets = offsets ≡ []
  Enters bytes (stub ∷ stubs) [] = ⊥
  Enters bytes (stub ∷ stubs) (off ∷ offsets) =
      (bound_stream segs lazy_start (drop off bytes) ≡ some (bind_of_stub stub ∷ []))
      × Enters bytes stubs offsets

  record_ops : LazyStub → ℕ → ℕ → List Op
  record_ops stub seg off =
      seg_offset seg off
      ∷ dylib (ordinal stub.stub_sym)
      ∷ symbol (name stub.stub_sym) (import_flags is_weak_ref stub.stub_sym)
      ∷ bind
      ∷ []

  read_record :
      (ops : List Op) (rest : List ℕ)
      → All IsOp ops
      → bound_stream segs lazy_start ((codes_of ops ++ 0 ∷ []) ++ rest)
        ≡ bound segs 0 0 lazy_start ops
  read_record ops rest h =
      let size : length (codes_of ops ++ 0 ∷ rest) ≡ length (codes_of ops) + suc (length rest) =
        length-append (codes_of ops) (0 ∷ rest) in
      rw
        (
          append_assoc (codes_of ops) (0 ∷ []) rest,
          bound_stream-read segs lazy_start (codes_of ops ++ 0 ∷ rest) (omega arith),
          read_ops-codes ops (length (codes_of ops ++ 0 ∷ rest)) rest h
              (omega (arith, length-codes_of ops)),
        )
        refl

  lazy_record-body :
      (stub : LazyStub)
      → length segs ≤ 16
      → IsStub stub
      → (body : List ℕ) × ((buf : List ℕ)
          → lazy_record segs name ordinal is_weak_ref buf stub ≡ some (buf ++ body))
        × ((rest : List ℕ)
            → bound_stream segs lazy_start (body ++ rest) ≡ some (bind_of_stub stub ∷ []))
  unfolding lazy_record record_ops
  lazy_record-body stub few ((mapped, fits), hn, ho) =
      let ((i, off), found) = some_of_ne (segment_and_offset segs stub.ptr_addr) mapped in
      let (seg, at, sum, inside) = segment_and_offset-Locates segs stub.ptr_addr i off found in
      let ops = record_ops stub i off in
      let fit : All IsOp ops = (
        (omega (arith, get_elem?-lt segs i at), omega arith),
        (ho, ((hn, ground arith), (tt, tt))),
      ) in
      (
        codes_of ops ++ 0 ∷ [],
        λ buf. rw found (
            rw (encode_ops-codes buf ops fit) (ap some (append_assoc buf (codes_of ops) (0 ∷ [])))),
        λ rest.
            read_record ops rest fit
            ∙ (unfold bound in
                rw
                  (
                    at,
                    sum,
                    le→leb seg.vmaddr stub.ptr_addr (omega arith),
                    lt→ltb stub.ptr_addr (seg.vmaddr + seg.vmsize) (omega arith),
                  )
                  refl),
      )

  enter_here :
      (buf body tail rest : List ℕ) (stub : LazyStub) (stubs : List LazyStub) (offsets : List ℕ)
      → length (buf ++ (body ++ tail)) < 2 ^ 32
      → bound_stream segs lazy_start (body ++ (tail ++ rest)) ≡ some (bind_of_stub stub ∷ [])
      → (length ((buf ++ body) ++ tail) < 2 ^ 32
          → Enters (((buf ++ body) ++ tail) ++ rest) stubs offsets)
      → Enters ((buf ++ (body ++ tail)) ++ rest) (stub ∷ stubs) ((length buf % 2 ^ 32) ∷ offsets)
  enter_here buf body tail rest stub stubs offsets l binds enters =
      let assoc = append_assoc buf body tail in
      let at : length buf % 2 ^ 32 ≡ length buf = omega (arith, length-append buf (body ++ tail)) in
      let there : drop (length buf) ((buf ++ (body ++ tail)) ++ rest) ≡ body ++ (tail ++ rest) =
        ap (drop (length buf)) (append_assoc buf (body ++ tail) rest)
        ∙ drop-length buf ((body ++ tail) ++ rest)
        ∙ append_assoc body tail rest in
      (
        rw (at, there) binds,
        subst (λ (b : List ℕ). Enters (b ++ rest) stubs offsets) assoc
            (enters (subst (λ (b : List ℕ). length b < 2 ^ 32) (sym assoc) l)),
      )

  lazy_loop-Enters :
      (buf : List ℕ) (stubs : List LazyStub)
      → length segs ≤ 16
      → All IsStub stubs
      → (tail : List ℕ) × (offsets : List ℕ) × (lazy_loop segs name ordinal is_weak_ref buf stubs
          ≡ some (buf ++ tail, offsets))
        × ((rest : List ℕ)
            → length (buf ++ tail) < 2 ^ 32
            → Enters ((buf ++ tail) ++ rest) stubs offsets)
  unfolding lazy_loop
  lazy_loop-Enters buf [] few h = ([], [], rw (append-nil buf) refl, λ rest l. refl)
  lazy_loop-Enters buf (stub ∷ stubs) few (h, hs) =
      let (body, recorded, binds) = lazy_record-body stub few h in
      let (tail, offsets, more, enters) = lazy_loop-Enters (buf ++ body) stubs few hs in
      (
        body ++ tail,
        (length buf % 2 ^ 32) ∷ offsets,
        rw (recorded buf, more)
            (ap (λ (l : List ℕ). some (l, (length buf % 2 ^ 32) ∷ offsets))
              (append_assoc buf body tail)),
        λ rest l.
            enter_here buf body tail rest stub stubs offsets l (binds (tail ++ rest)) (enters rest),
      )

  -- For at most 16 segments, stubs whose lazy pointers lie in a segment and inside the address space,
  -- names with no zero byte and libraries that fit, and records of fewer than 2^32 bytes: the
  -- records are built, one offset for each stub, and the loader that enters the records at a stub's
  -- offset makes that stub's bind and no other.
  pub construct-Enters :
      (stubs : List LazyStub)
      → length segs ≤ 16
      → All IsStub stubs
      → ((bytes offsets : List ℕ)
          → construct segs name ordinal is_weak_ref stubs ≡ some (bytes, offsets)
          → length bytes < 2 ^ 32)
      → (bytes : List ℕ) × (offsets : List ℕ) × (construct segs name ordinal is_weak_ref stubs
          ≡ some (bytes, offsets))
        × Enters bytes stubs offsets
  unfolding construct
  construct-Enters [] few h small = ([], [], refl, refl)
  construct-Enters (stub ∷ stubs) few h small =
      let (tail, offsets, built, enters) = lazy_loop-Enters [] (stub ∷ stubs) few h in
      let done : construct segs name ordinal is_weak_ref (stub ∷ stubs)
          ≡ some (pad_to 8 tail, offsets) =
        rw built refl in
      let size = small (pad_to 8 tail) offsets done in
      (pad_to 8 tail, offsets, done, unfold pad_to in enters _ (omega (arith, unpadded tail size)))
