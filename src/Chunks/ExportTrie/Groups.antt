-- ===== src/Chunks/ExportTrie/Groups.antt =====
-- The groups that build_trie of macho/chunks/export_trie.rs splits its names into, by the byte at
-- `depth`, the names standing as `pre`, of that many bytes, and what follows it.
use mold_macho.Chunks.ExportTrie.{Entry, count_group, Export, split_groups}
use mold_macho.Chunks.ExportTrie.Order.{
  prepend, name_cmp-heads, name_cmp-nil, HeadIs, All-first, IsSorted, HeadAbove, IsSorted-append,
}
use mold_macho.Prelude.{
  some, true, inr, sym, ◌∙◌, ap, arith, suc, Bool-cases, drop, Ordering, inl, zero, ◌++◌, ◌∷◌, [],
  length-append, ◌≡◌, List, ◌<◌, refl, ℕ, ◌≤◌, ◌==◌, take, length, get_elem?,
}
use mold_macho.Prelude.Bytes.{All}
use mold_macho.Prelude.Slices.{get_elem?-append_here, drop_all, take_all}
use mold_macho.Util.Names.{name_cmp}

-- Groups of names, each of one first byte, in the order of those bytes.
abbrev pub GroupsOf : List Entry → List (List Entry) → Type 0
GroupsOf names [] = names ≡ []
GroupsOf names (group ∷ groups) =
    (b : ℕ) × (first : Entry) × (more : List Entry) × (rest : List Entry) × (group ≡ first ∷ more)
    × (names ≡ group ++ rest)
    × All (HeadIs b) group
    × All (HeadAbove b) rest
    × GroupsOf rest groups

abbrev NotBelow : ℕ → Entry → Type 0
NotBelow b e = (x : ℕ) × (s : List ℕ) × (e.0 ≡ x ∷ s) × (b ≤ x)

pub length-prepend : (pre : List ℕ) (names : List Entry) → length (prepend pre names) ≡ length names
length-prepend pre [] = refl
length-prepend pre ((n, e) ∷ names) = ap suc (length-prepend pre names)

pub prepend-append :
    (pre : List ℕ) (xs ys : List Entry) → prepend pre (xs ++ ys) ≡ prepend pre xs ++ prepend pre ys
prepend-append pre [] ys = refl
prepend-append pre ((n, e) ∷ xs) ys = ap (λ l. (pre ++ n, e) ∷ l) (prepend-append pre xs ys)

-- The byte at `depth`.
byte_at :
    (pre name : List ℕ) (b : ℕ) (s : List ℕ)
    → name ≡ b ∷ s
    → get_elem? (pre ++ name) (length pre) ≡ some b
byte_at pre name b s e = rw e (get_elem?-append_here pre s b)

-- Names after one that has a greater first byte have a greater one too.
above-sorted :
    (b : ℕ) (x : Entry) (names : List Entry)
    → HeadAbove b x
    → All (λ (y : Entry). name_cmp x.0 y.0 ≡ Ordering.lt) names
    → All (HeadAbove b) names
above-sorted b x [] h hs = tt
above-sorted b x (([], e) ∷ names) h (lt, hs) = absurd (name_cmp-nil x.0 lt)
above-sorted b x ((y ∷ ys, e) ∷ names) (c, s, ex, above) (lt, hs) =
    let lt' : name_cmp (c ∷ s) (y ∷ ys) ≡ Ordering.lt = rw ex at lt in
    let le : b < y = elim (name_cmp-heads c y s ys lt') [
      | inl l ↦ omega arith
      | inr (same, more) ↦ omega arith
    ] in
    ((y, ys, refl, le), above-sorted b x names (c, s, ex, above) hs)

count_group-HeadIs :
    (pre : List ℕ) (b : ℕ) (names : List Entry)
    → IsSorted names
    → All (NotBelow b) names
    → (group : List Entry) × (rest : List Entry) × (names ≡ group ++ rest)
      × (count_group (length pre) b (prepend pre names) ≡ some (length group))
      × All (HeadIs b) group
      × All (HeadAbove b) rest
unfolding count_group
count_group-HeadIs pre b [] sorted h = ([], [], refl, refl, tt, tt)
count_group-HeadIs pre b ((n, e) ∷ names) (lt, sorted) ((x, s, en, le), h) =
    elim (Bool-cases (x == b)) [
      | inl eq ↦
          let (group, rest, split, count, heads, aboves) =
            count_group-HeadIs pre b names sorted h in
          let same : x ≡ b = ground arith in
          (
            (n, e) ∷ group,
            rest,
            ap (λ l. (n, e) ∷ l) split,
            rw (byte_at pre n x s en, eq, count) refl,
            ((s, en ∙ ap (λ c. c ∷ s) same), heads),
            aboves,
          )
      | inr ne ↦
          let above : b < x = ground arith in
          (
            [],
            (n, e) ∷ names,
            refl,
            rw (byte_at pre n x s en, ne) refl,
            tt,
            ((x, s, en, above), above-sorted b (n, e) names (x, s, en, above) lt),
          )
    ]

-- Names that are all non-empty.
abbrev pub IsBare : Entry → Type 0
IsBare e = (x : ℕ) × (s : List ℕ) × (e.0 ≡ x ∷ s)

first_group :
    (pre : List ℕ) (b : ℕ) (s n : List ℕ) (e : Export) (names : List Entry)
    → n ≡ b ∷ s
    → IsSorted ((n, e) ∷ names)
    → All IsBare names
    → (group : List Entry) × (rest : List Entry) × (names ≡ group ++ rest)
      × (count_group (length pre) b (prepend pre names) ≡ some (length group))
      × All (HeadIs b) group
      × All (HeadAbove b) rest
first_group pre b s n e names en (lt, sorted) bare =
    let (group, rest, split, count, heads, aboves) =
      count_group-HeadIs pre b names sorted (not_below names lt bare) in
    (group, rest, split, count, heads, aboves)
  where
    not_below :
        (ys : List Entry)
        → All (λ (y : Entry). name_cmp n y.0 ≡ Ordering.lt) ys
        → All IsBare ys
        → All (NotBelow b) ys
    not_below [] h k = tt
    not_below ((m, e') ∷ ys) (h, hs) ((x, t, em), ks) =
        let h' : name_cmp (b ∷ s) (x ∷ t) ≡ Ordering.lt = rw (en, em) at h in
        let le : b ≤ x = elim (name_cmp-heads b x s t h') [
          | inl l ↦ omega arith
          | inr (same, more) ↦ omega arith
        ] in
        ((x, t, em, le), not_below ys hs ks)

unfoldable pub prepends : List ℕ → List (List Entry) → List (List Entry)
prepends pre [] = []
prepends pre (group ∷ groups) = prepend pre group ∷ prepends pre groups

pub split_groups-GroupsOf :
    (fuel : ℕ) (pre : List ℕ) (names : List Entry)
    → IsSorted names
    → All IsBare names
    → length names ≤ fuel
    → (groups : List (List Entry)) × (split_groups fuel (length pre) (prepend pre names)
        ≡ some (prepends pre groups))
      × GroupsOf names groups
unfolding split_groups prepends
split_groups-GroupsOf fuel pre [] sorted bare h = ([], refl, refl)
split_groups-GroupsOf zero pre (x ∷ names) sorted bare h = absurd (omega arith)
split_groups-GroupsOf (suc fuel) pre ((n, e) ∷ names) sorted ((b, s, en), bare) h =
    let (group, rest, split, count, heads, aboves) = first_group pre b s n e names en sorted bare in
    let eq : (b == b) ≡ true = ground arith in
    let sorted' = rw split at sorted.1 in
    let bare' = rw split at bare in
    let sizes = length-append group rest in
    let (groups, splits, is_groups) =
      split_groups-GroupsOf fuel pre rest (IsSorted-append group rest sorted').1
        (All-first IsBare group rest bare').1 (omega (arith, ap length split)) in
    let whole : prepend pre names ≡ prepend pre group ++ prepend pre rest =
      ap (prepend pre) split ∙ prepend-append pre group rest in
    let len = length-prepend pre group in
    let dropped : drop (length group) (prepend pre names) ≡ prepend pre rest =
      ap (drop (length group)) whole
      ∙ drop_all (length group) (prepend pre group) (prepend pre rest) (sym len) in
    let taken : take (length group) (prepend pre names) ≡ prepend pre group =
      ap (take (length group)) whole
      ∙ take_all (length group) (prepend pre group) (prepend pre rest) (sym len) in
    (
      ((n, e) ∷ group) ∷ groups,
      rw (byte_at pre n b s en, eq, count, dropped, splits, taken) refl,
      (
        b,
        (n, e),
        group,
        rest,
        refl,
        ap (λ l. (n, e) ∷ l) split,
        ((s, en), heads),
        aboves,
        is_groups,
      ),
    )
