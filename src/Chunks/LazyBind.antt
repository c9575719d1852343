-- ===== src/Chunks/LazyBind.antt =====
-- macho/chunks/lazy_bind_info.rs: the records that the stub helpers enter. A stub is given by its
-- symbol and the address of its lazy pointer.
pub mod Entry
use mold_macho.Chunks.Bind.{dylib, symbol, seg_offset, bind, Op, encode_ops, import_flags}
use mold_macho.Chunks.Segments.{segment_and_offset, Segment}
use mold_macho.Prelude.{◌∷◌, ◌^◌, List, [], ◌++◌, ℕ, Bool, Option, ◌%◌, length, some}
use mold_macho.Prelude.Bytes.{pad_to}
use mold_macho.Prelude.Fallible.{◌>>=◌}
use mold_macho.Prelude.Int.{ℤ}

pub record LazyStub : Type 0 where
  pub stub_sym : ℕ
  pub ptr_addr : ℕ

-- The record of one stub, appended.
unfoldable pub lazy_record :
    List Segment → (ℕ → List ℕ) → (ℕ → ℤ) → (ℕ → Bool) → List ℕ → LazyStub → Option (List ℕ)
unfolding encode_ops
lazy_record segs name ordinal is_weak_ref buf stub = do
  (seg, off) ← segment_and_offset segs stub.ptr_addr
  out ← encode_ops buf (
      seg_offset seg off
      ∷ dylib (ordinal stub.stub_sym)
      ∷ symbol (name stub.stub_sym) (import_flags is_weak_ref stub.stub_sym)
      ∷ bind
      ∷ [])
  some (out ++ 0 ∷ [])

-- The records and their offsets.
unfoldable pub lazy_loop :
    List Segment
    → (ℕ → List ℕ)
    → (ℕ → ℤ)
    → (ℕ → Bool)
    → List ℕ
    → List LazyStub
    → Option (List ℕ × List ℕ)
unfolding lazy_record
lazy_loop segs name ordinal is_weak_ref buf [] = some (buf, [])
lazy_loop segs name ordinal is_weak_ref buf (stub ∷ stubs) = do
  out ← lazy_record segs name ordinal is_weak_ref buf stub
  (all, offsets) ← lazy_loop segs name ordinal is_weak_ref out stubs
  some (all, (length buf % 2 ^ 32) ∷ offsets)

unfoldable pub construct :
    List Segment → (ℕ → List ℕ) → (ℕ → ℤ) → (ℕ → Bool) → List LazyStub → Option (List ℕ × List ℕ)
unfolding lazy_loop pad_to
construct segs name ordinal is_weak_ref [] = some ([], [])
construct segs name ordinal is_weak_ref (stub ∷ stubs) = do
  (buf, offsets) ← lazy_loop segs name ordinal is_weak_ref [] (stub ∷ stubs)
  some (pad_to 8 buf, offsets)
