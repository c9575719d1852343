-- ===== src/Thunks/Scan.antt =====
-- macho/thunks.rs: the branches of a batch that need an entry in its thunk.
use mold_macho.Prelude.{
  not, ℕ, false, if◌then◌else◌, sym, ◌&&◌, ◌%◌, List, [], ◌==◌, ◌+◌, ◌^◌, true, ◌/◌, none, ltb, leb,
  ◌-◌, ◌||◌, some, ◌++◌, ◌∷◌, suc, Bool,
}
use mold_macho.Prelude.Sort.{sort}
use mold_macho.Thunks.Data.{
  unplaced, before, after, outside, obj, dylib, member, output, nowhere, offset_at, is_marked, Isec,
  Reach, Rel, Symbol, Side,
}

unfoldable pub by_side : Reach → Side → Bool
by_side reach before = not reach.backward
by_side reach after = not reach.forward
by_side reach outside = true

-- `(-distance..distance).contains(&(t.wrapping_sub(p) as i64))`.
unfoldable pub in_reach : ℕ → ℕ → ℕ → Bool
in_reach distance t p =
    let diff = (t + 2 ^ 64 - p) % 2 ^ 64 in ltb diff distance || leb (2 ^ 64 - distance) diff

module _ (branch_range : ℕ) where
  abbrev pub distance : ℕ
  distance = branch_range / 2

  unfoldable pub requires_thunk : List ℕ → Reach → ℕ → Symbol → Bool
  unfolding offset_at by_side in_reach
  requires_thunk starts reach p sym =
      if sym.has_stub && sym.is_interposable then by_side reach reach.stubs else elim sym.file [
        | none ↦ false
        | some (dylib lib) ↦ by_side reach (if sym.has_stub then reach.stubs else outside)
        | some (obj file) ↦ elim sym.input_section [
          | some (member i) ↦
              if offset_at starts i == unplaced
              then by_side reach after
              else not (in_reach distance (offset_at starts i + sym.value) p)
          | some (output osec) ↦ by_side reach (reach.sides osec)
          | some nowhere ↦ by_side reach outside
          | none ↦ by_side reach (if sym.has_objc_stub then reach.objc_stubs else outside)
        ]
      ]

  module _ (symbols : ℕ → Symbol) where
    -- The marks, and the symbols that claimed an entry.
    unfoldable pub scan_rel : List ℕ → Reach → ℕ → Rel → List ℕ × List ℕ → List ℕ × List ℕ
    unfolding requires_thunk is_marked
    scan_rel starts reach start rel (marks, syms) =
        if not rel.is_func_call || not (rel.addend == 0) then (marks, syms) else elim rel.sym [
          | none ↦ (marks, syms)
          | some id ↦
              if requires_thunk starts reach (start + rel.offset) (symbols id)
                && not (is_marked id marks)
              then (id ∷ marks, syms ++ id ∷ [])
              else (marks, syms)
        ]

    unfoldable pub scan_rels : List ℕ → Reach → ℕ → List Rel → List ℕ × List ℕ → List ℕ × List ℕ
    unfolding scan_rel
    scan_rels starts reach start [] found = found
    scan_rels starts reach start (rel ∷ rels) found =
        scan_rels starts reach start rels (scan_rel starts reach start rel found)

    -- The batch's members, the first of them at the position `i`.
    unfoldable pub scan_members : List ℕ → Reach → ℕ → List Isec → List ℕ × List ℕ → List ℕ × List ℕ
    unfolding scan_rels offset_at
    scan_members starts reach i [] found = found
    scan_members starts reach i (isec ∷ batch) found =
        scan_members starts reach (suc i) batch
          (scan_rels starts reach (offset_at starts i) isec.rels found)

    -- A sequential scan stands for the parallel one, since what a symbol claims does not depend on
    -- who claims it and the claims are sorted.
    unfoldable pub scan_batch : List ℕ → Reach → ℕ → List Isec → List ℕ → List ℕ × List ℕ
    unfolding scan_members sort
    scan_batch starts reach i batch marks =
        let (marks', syms) = scan_members starts reach i batch (marks, []) in (marks', sort syms)
