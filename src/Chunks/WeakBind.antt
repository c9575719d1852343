-- ===== src/Chunks/WeakBind.antt =====
-- macho/chunks/weak_bind_info.rs: the weak bind stream, from the binds and the overrides gathered.
pub mod Stream
use mold_macho.Chunks.Bind.{Bind, Op, symbol, bind_ops, encode, no_later}
use mold_macho.Chunks.Segments.{Segment}
use mold_macho.Prelude.{none, ℕ, List, compare, map, sym, [], ◌∷◌, Option, some, ◌++◌, Bool}
use mold_macho.Prelude.Fallible.{◌>>=◌}
use mold_macho.Prelude.Int.{ℤ, pos}
use mold_macho.Prelude.SortBy.{sort_by}
use mold_macho.Util.Names.{then_with, name_cmp}

-- A symbol and the address of its slot.
abbrev pub WeakBind : Type 0
WeakBind = ℕ × ℕ

unfoldable pub name_le : (ℕ → List ℕ) → ℕ → ℕ → Bool
unfolding name_cmp
name_le name a b = no_later (name_cmp (name a) (name b))

unfoldable pub weak_le : (ℕ → List ℕ) → WeakBind → WeakBind → Bool
unfolding name_cmp
weak_le name a b = no_later (then_with (name_cmp (name a.0) (name b.0)) (compare a.1 b.1))

abbrev pub as_bind : WeakBind → Bind
as_bind (id, addr) = record { at = addr; sym = id; plus = pos 0 }

-- BIND_SYMBOL_FLAGS_NON_WEAK_DEFINITION.
abbrev pub non_weak : ℕ
non_weak = 8

unfoldable pub override_ops : (ℕ → List ℕ) → List ℕ → List Op
override_ops name [] = []
override_ops name (id ∷ overrides) = symbol (name id) non_weak ∷ override_ops name overrides

abbrev pub no_library : ℕ → Option ℤ
no_library id = none

abbrev pub no_flags : ℕ → ℕ
no_flags id = 0

-- The opcodes, the overrides first.
unfoldable pub weak_ops : List Segment → (ℕ → List ℕ) → List ℕ → List WeakBind → Option (List Op)
unfolding override_ops bind_ops name_le weak_le
weak_ops segs name overrides binds = do
  ops ← bind_ops segs name no_library no_flags (map as_bind (sort_by (weak_le name) binds))
  some (override_ops name (sort_by (name_le name) overrides) ++ ops)

unfoldable pub construct : List Segment → (ℕ → List ℕ) → List ℕ → List WeakBind → Option (List ℕ)
unfolding weak_ops encode
construct segs name [] [] = some []
construct segs name [] (b ∷ binds) = weak_ops segs name [] (b ∷ binds) >>= encode
construct segs name (id ∷ overrides) binds = weak_ops segs name (id ∷ overrides) binds >>= encode
