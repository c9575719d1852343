-- ===== src/Chunks/ExportTrie/Common.antt =====
-- The label that build_child of macho/chunks/export_trie.rs gives a group: the common prefix of its
-- first and its last name is one of all its names.
use mathlib.Core.Path.{subst}
use mold_macho.Chunks.ExportTrie.{last_of, common_len, Entry}
use mold_macho.Chunks.ExportTrie.Order.{HeadIs, IsSorted, prepend, between}
use mold_macho.Prelude.{
  ℕ, arith, refl, ◌∷◌, ◌++◌, length, true, Ordering, inl, [], inr, ◌==◌, List, ◌∙◌, take, ◌≡◌, ap,
  ap₂, ◌⊎◌, Bool-cases, suc, append_assoc, sym,
}
use mold_macho.Prelude.Bytes.{All}
use mold_macho.Util.Names.{name_cmp}

common_len-take :
    (xs ys : List ℕ)
    → (a : List ℕ) × (c : List ℕ) × (xs ≡ take (common_len xs ys) xs ++ a)
      × (ys ≡ take (common_len xs ys) xs ++ c)
unfolding common_len
common_len-take [] ys = ([], ys, refl, refl)
common_len-take (x ∷ xs) [] = (x ∷ xs, [], refl, refl)
common_len-take (x ∷ xs) (y ∷ ys) = elim (Bool-cases (x == y)) [
  | inl eq ↦
      let (a, c, ea, ec) = common_len-take xs ys in
      let same : y ≡ x = ground arith in (a, c, rw eq (ap (λ l. x ∷ l) ea), rw eq (ap₂ ◌∷◌ same ec))
  | inr ne ↦ (x ∷ xs, y ∷ ys, rw ne refl, rw ne refl)
]

All-last_of {ℓ κ} :
    {A : Type ℓ} (P : A → Type κ) (x : A) (xs : List A) → All P (x ∷ xs) → P (last_of x xs)
All-last_of P x [] (h, hs) = h
All-last_of P x (y ∷ ys) (h, hs) = All-last_of P y ys hs

-- Each name of a sorted list comes before the last one or is it.
abbrev UpTo : List ℕ → Entry → Type 0
UpTo last e = (name_cmp e.0 last ≡ Ordering.lt) ⊎ (e.0 ≡ last)

sorted-UpTo :
    (first : Entry) (more : List Entry)
    → IsSorted (first ∷ more)
    → All (UpTo (last_of first more).0) (first ∷ more)
sorted-UpTo first [] h = (inr refl, tt)
sorted-UpTo first (m ∷ ms) (h, hs) = (
  inl (All-last_of (λ (y : Entry). name_cmp first.0 y.0 ≡ Ordering.lt) m ms h),
  sorted-UpTo m ms hs,
)

-- The names of a list start with `l`.
abbrev StartAlike : List ℕ → Entry → Type 0
StartAlike l e = (s : List ℕ) × (e.0 ≡ l ++ s)

group-StartAlike :
    (l a c : List ℕ) (first : Entry) (more : List Entry)
    → IsSorted (first ∷ more)
    → first.0 ≡ l ++ a
    → (last_of first more).0 ≡ l ++ c
    → All (StartAlike l) (first ∷ more)
group-StartAlike l a c first more (h, hs) ea ec =
    ((a, ea), rest more h (sorted-UpTo first more (h, hs)).1)
  where
    rest :
        (ys : List Entry)
        → All (λ (y : Entry). name_cmp first.0 y.0 ≡ Ordering.lt) ys
        → All (UpTo (last_of first more).0) ys
        → All (StartAlike l) ys
    rest [] k u = tt
    rest (y ∷ ys) (k, ks) (u, us) = (
      elim u [
        | inl lt ↦
            between l a c y.0 (rw ea at k)
              (subst (λ (n : List ℕ). name_cmp y.0 n ≡ Ordering.lt) ec lt)
        | inr e ↦ (c, e ∙ ec)
      ],
      rest ys ks us,
    )

unprepend :
    (l : List ℕ) (names : List Entry)
    → All (StartAlike l) names
    → (names' : List Entry) × (names ≡ prepend l names')
unprepend l [] h = ([], refl)
unprepend l ((n, e) ∷ names) ((s, es), h) =
    let (names', same) = unprepend l names h in
    ((s, e) ∷ names', ap₂ (λ m rest. (m, e) ∷ rest) es same)

common_len-starts :
    (b : ℕ) (xs ys : List ℕ)
    → take (common_len (b ∷ xs) (b ∷ ys)) (b ∷ xs) ≡ b ∷ take (common_len xs ys) xs
unfolding common_len
common_len-starts b xs ys = let eq : (b == b) ≡ true = ground arith in rw eq refl

common_len-length : (xs ys : List ℕ) → common_len xs ys ≡ length (take (common_len xs ys) xs)
unfolding common_len
common_len-length [] ys = refl
common_len-length (x ∷ xs) [] = refl
common_len-length (x ∷ xs) (y ∷ ys) = elim (Bool-cases (x == y)) [
  | inl eq ↦ rw eq (ap suc (common_len-length xs ys))
  | inr ne ↦ rw ne refl
]

-- The label of a group, and the group below it.
pub group-label :
    (b : ℕ) (first : Entry) (more : List Entry)
    → IsSorted (first ∷ more)
    → All (HeadIs b) (first ∷ more)
    → (l : List ℕ) × (names : List Entry) × (take
          (common_len first.0 (last_of first more).0)
          first.0
        ≡ b ∷ l)
      × (common_len first.0 (last_of first more).0 ≡ length (b ∷ l))
      × (first ∷ more ≡ prepend (b ∷ l) names)
group-label b first more sorted heads =
    let last = (last_of first more).0 in
    let (s, es) = heads.0 in
    let (t, et) = All-last_of (HeadIs b) first more heads in
    let (a, c, ea, ec) = common_len-take first.0 last in
    let l = take (common_len s t) s in
    let label : take (common_len first.0 last) first.0 ≡ b ∷ l =
      ap₂ (λ f g. take (common_len f g) f) es et ∙ common_len-starts b s t in
    let alike =
      group-StartAlike (b ∷ l) a c first more sorted (ea ∙ ap (λ k. k ++ a) label)
        (ec ∙ ap (λ k. k ++ c) label) in
    let (names, same) = unprepend (b ∷ l) (first ∷ more) alike in
    (l, names, label, common_len-length first.0 last ∙ ap length label, same)

pub last_of-prepend :
    (pre : List ℕ) (first : Entry) (more : List Entry)
    → (last_of (pre ++ first.0, first.1) (prepend pre more)).0 ≡ pre ++ (last_of first more).0
last_of-prepend pre first [] = refl
last_of-prepend pre first (m ∷ ms) = last_of-prepend pre m ms

pub prepend-prepend :
    (pre l : List ℕ) (names : List Entry) → prepend pre (prepend l names) ≡ prepend (pre ++ l) names
prepend-prepend pre l [] = refl
prepend-prepend pre l ((n, e) ∷ names) =
    ap₂ (λ m rest. (m, e) ∷ rest) (sym (append_assoc pre l n)) (prepend-prepend pre l names)
