-- ===== src/Thunks/Claims.antt =====
-- What the scan of a batch of macho/thunks.rs marks, and the symbols it returns.
use mathlib.Core.Path.{subst}
use mold_macho.Prelude.{
  ◌≡◌, ◌+◌, List, true, arith, ◌||◌, ◌==◌, ◌++◌, ℕ, some, ◌⊎◌, ◌∷◌, ℕ_discrete, inl, [], inr, sym,
  refl, suc, ◌∙◌, not, ◌&&◌, zero, get_elem?, Bool-cases, Option-cases,
}
use mold_macho.Prelude.Fallible.{some_inj}
use mold_macho.Prelude.Sort.{sort, insert}
use mold_macho.Thunks.Data.{is_marked, offset_at, Rel, Isec, Symbol, Reach}
use mold_macho.Thunks.Scan.{requires_thunk, scan_rel, scan_rels, scan_members, scan_batch}

is_marked-append :
    (id other : ℕ) (syms : List ℕ)
    → is_marked id (syms ++ other ∷ []) ≡ (is_marked id syms || id == other)
unfolding is_marked
is_marked-append id other [] = ground arith
is_marked-append id other (x ∷ syms) = ground (arith, is_marked-append id other syms)

is_marked-insert :
    (id a : ℕ) (syms : List ℕ) → is_marked id (insert a syms) ≡ (id == a || is_marked id syms)
unfolding is_marked insert
is_marked-insert id a [] = refl
is_marked-insert id a (x ∷ syms) = ground (arith, is_marked-insert id a syms)

is_marked-sort : (id : ℕ) (syms : List ℕ) → is_marked id (sort syms) ≡ is_marked id syms
unfolding is_marked sort
is_marked-sort id [] = refl
is_marked-sort id (x ∷ syms) =
    ground (arith, is_marked-insert id x (sort syms), is_marked-sort id syms)

-- A branch to a symbol, of the kind that a thunk can serve.
abbrev pub IsBranch : Rel → ℕ → Type 0
IsBranch rel id = (rel.is_func_call ≡ true) × (rel.addend ≡ 0) × (rel.sym ≡ some id)

module _ (branch_range : ℕ) (symbols : ℕ → Symbol) (starts : List ℕ) (reach : Reach) where
  -- A scan drops no mark, and marks only what it returns.
  pub record Grows (found found' : List ℕ × List ℕ) : Type 0 where
    pub keeps : (id : ℕ) → is_marked id found.0 ≡ true → is_marked id found'.0 ≡ true
    pub holds : (id : ℕ) → is_marked id found.1 ≡ true → is_marked id found'.1 ≡ true
    pub claims :
        (id : ℕ)
        → is_marked id found'.0 ≡ true
        → (is_marked id found.0 ≡ true) ⊎ (is_marked id found'.1 ≡ true)

  Grows-refl : (found : List ℕ × List ℕ) → Grows found found
  Grows-refl found = record { keeps = λ id h. h; holds = λ id h. h; claims = λ id h. inl h }

  Grows-trans : {f g h : List ℕ × List ℕ} → Grows f g → Grows g h → Grows f h
  Grows-trans fg gh = record {
    keeps = λ id h. gh.keeps id (fg.keeps id h);
    holds = λ id h. gh.holds id (fg.holds id h);
    claims = λ id h. elim (gh.claims id h) [
      | inl m ↦ elim (fg.claims id m) [ inl old ↦ inl old | inr new ↦ inr (gh.holds id new) ]
      | inr new ↦ inr new
    ];
  }

  Grows-claim : (id : ℕ) (marks syms : List ℕ) → Grows (marks, syms) (id ∷ marks, syms ++ id ∷ [])
  unfolding is_marked
  Grows-claim id marks syms = record {
    keeps = λ other h. ground arith;
    holds = λ other h. ground (arith, is_marked-append other id syms);
    claims = λ other h. elim (ℕ_discrete other id) [
      | yes e ↦ inr (ground (arith, is_marked-append other id syms))
      | no ne ↦ inl (ground arith)
    ];
  }

  pub scan_rel-Grows :
      (start : ℕ) (rel : Rel) (found : List ℕ × List ℕ)
      → Grows found (scan_rel branch_range symbols starts reach start rel found)
  unfolding scan_rel
  scan_rel-Grows start rel (marks, syms) =
      elim (Bool-cases (not rel.is_func_call || not (rel.addend == 0))) [
        | inl skip ↦ rw skip (Grows-refl (marks, syms))
        | inr call ↦ elim (Option-cases rel.sym) [
          | inl e ↦ rw (call, e) (Grows-refl (marks, syms))
          | inr (id, e) ↦
              elim (Bool-cases (
                requires_thunk branch_range starts reach (start + rel.offset) (symbols id)
                && not (is_marked id marks))) [
                  | inl claim ↦ rw (call, e, claim) (Grows-claim id marks syms)
                  | inr pass ↦ rw (call, e, pass) (Grows-refl (marks, syms))
                ]
        ]
      ]

  scan_rel-marks :
      (start : ℕ) (rel : Rel) (id : ℕ) (found : List ℕ × List ℕ)
      → IsBranch rel id
      → requires_thunk branch_range starts reach (start + rel.offset) (symbols id) ≡ true
      → is_marked id (scan_rel branch_range symbols starts reach start rel found).0 ≡ true
  unfolding scan_rel is_marked
  scan_rel-marks start rel id (marks, syms) (call, plain, sym) far =
      elim (Bool-cases (is_marked id marks)) [
        | inl old ↦ (scan_rel-Grows start rel (marks, syms)).keeps id old
        | inr new ↦ rw (call, plain, sym, far, new) (ground arith)
      ]

  pub scan_rels-Grows :
      (start : ℕ) (rels : List Rel) (found : List ℕ × List ℕ)
      → Grows found (scan_rels branch_range symbols starts reach start rels found)
  unfolding scan_rels
  scan_rels-Grows start [] found = Grows-refl found
  scan_rels-Grows start (rel ∷ rels) found =
      Grows-trans (scan_rel-Grows start rel found)
        (scan_rels-Grows start rels (scan_rel branch_range symbols starts reach start rel found))

  scan_rels-marks :
      (start : ℕ) (rels : List Rel) (k : ℕ) (rel : Rel) (id : ℕ) (found : List ℕ × List ℕ)
      → get_elem? rels k ≡ some rel
      → IsBranch rel id
      → requires_thunk branch_range starts reach (start + rel.offset) (symbols id) ≡ true
      → is_marked id (scan_rels branch_range symbols starts reach start rels found).0 ≡ true
  unfolding scan_rels
  scan_rels-marks start [] k rel id found at branch far = absurd cc
  scan_rels-marks start (r ∷ rels) zero rel id found at branch far =
      let e : rel ≡ r = some_inj (sym at) in
      (scan_rels-Grows start rels (scan_rel branch_range symbols starts reach start r found)).keeps
        id
        (subst
          (λ r. is_marked id (scan_rel branch_range symbols starts reach start r found).0 ≡ true) e
          (scan_rel-marks start rel id found branch far))
  scan_rels-marks start (r ∷ rels) (suc k) rel id found at branch far =
      scan_rels-marks start rels k rel id (scan_rel branch_range symbols starts reach start r found)
        at branch far

  scan_members-Grows :
      (i : ℕ) (batch : List Isec) (found : List ℕ × List ℕ)
      → Grows found (scan_members branch_range symbols starts reach i batch found)
  unfolding scan_members
  scan_members-Grows i [] found = Grows-refl found
  scan_members-Grows i (isec ∷ batch) found =
      Grows-trans (scan_rels-Grows (offset_at starts i) isec.rels found) (
        scan_members-Grows (suc i) batch
          (scan_rels branch_range symbols starts reach (offset_at starts i) isec.rels found))

  scan_members-marks :
      (i : ℕ) (batch : List Isec) (j : ℕ) (isec : Isec) (k : ℕ) (rel : Rel) (id : ℕ)
      (found : List ℕ × List ℕ)
      → get_elem? batch j ≡ some isec
      → get_elem? isec.rels k ≡ some rel
      → IsBranch rel id
      → requires_thunk branch_range starts reach
          (offset_at starts (i + j) + rel.offset)
          (symbols id)
        ≡ true
      → is_marked id (scan_members branch_range symbols starts reach i batch found).0 ≡ true
  unfolding scan_members
  scan_members-marks i [] j isec k rel id found nth at branch far = absurd cc
  scan_members-marks i (x ∷ batch) zero isec k rel id found nth at branch far =
      let e : isec ≡ x = some_inj (sym nth) in
      let e' : i + 0 ≡ i = omega arith in
      (scan_members-Grows (suc i) batch
          (scan_rels branch_range symbols starts reach (offset_at starts i) x.rels found)).keeps
        id
        (scan_rels-marks (offset_at starts i) x.rels k rel id found
          (subst (λ x. get_elem? x.rels k ≡ some rel) e at) branch
          (subst
            (λ n.
              requires_thunk branch_range starts reach (offset_at starts n + rel.offset)
                (symbols id)
              ≡ true)
            e' far))
  scan_members-marks i (x ∷ batch) (suc j) isec k rel id found nth at branch far =
      let e' : suc i + j ≡ i + suc j = omega arith in
      scan_members-marks (suc i) batch j isec k rel id
        (scan_rels branch_range symbols starts reach (offset_at starts i) x.rels found) nth at
        branch
        (subst
          (λ n.
            requires_thunk branch_range starts reach (offset_at starts n + rel.offset) (symbols id)
            ≡ true)
          (sym e') far)

  -- After the scan every marked symbol was marked before or is returned.
  pub scan_batch-claims :
      (i : ℕ) (batch : List Isec) (marks : List ℕ) (id : ℕ)
      → is_marked id (scan_batch branch_range symbols starts reach i batch marks).0 ≡ true
      → (is_marked id marks ≡ true)
        ⊎ (is_marked id (scan_batch branch_range symbols starts reach i batch marks).1 ≡ true)
  unfolding scan_batch
  scan_batch-claims i batch marks id h =
      let syms = (scan_members branch_range symbols starts reach i batch (marks, [])).1 in
      elim ((scan_members-Grows i batch (marks, [])).claims id h) [
        | inl old ↦ inl old
        | inr new ↦ inr (is_marked-sort id syms ∙ new)
      ]

  -- After the scan every symbol that a branch of the batch may not reach is marked.
  pub scan_batch-marks :
      (i : ℕ) (batch : List Isec) (marks : List ℕ) (j : ℕ) (isec : Isec) (k : ℕ) (rel : Rel)
      (id : ℕ)
      → get_elem? batch j ≡ some isec
      → get_elem? isec.rels k ≡ some rel
      → IsBranch rel id
      → requires_thunk branch_range starts reach
          (offset_at starts (i + j) + rel.offset)
          (symbols id)
        ≡ true
      → is_marked id (scan_batch branch_range symbols starts reach i batch marks).0 ≡ true
  unfolding scan_batch
  scan_batch-marks i batch marks j isec k rel id nth at branch far =
      scan_members-marks i batch j isec k rel id (marks, []) nth at branch far
