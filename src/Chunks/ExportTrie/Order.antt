-- ===== src/Chunks/ExportTrie/Order.antt =====
-- Names in their order, for macho/chunks/export_trie.rs, and what names with the same first bytes
-- have of it.
use mold_macho.Chunks.ExportTrie.{Entry}
use mold_macho.Prelude.{
  [], ◌++◌, ◌∙◌, ◌<◌, sym, compare, ap₂, List, inr, ◌≡◌, ◌≢◌, ◌⊎◌, ◌∷◌, Ordering, refl, inl, arith,
  ℕ,
}
use mold_macho.Prelude.Bytes.{All}
use mold_macho.Util.Names.{then_with, name_cmp}

-- The names of a list stand in strictly increasing order.
abbrev pub IsSorted : List Entry → Type 0
IsSorted [] = Unit
IsSorted (x ∷ xs) = All (λ (y : Entry). name_cmp x.0 y.0 ≡ Ordering.lt) xs × IsSorted xs

-- The entries with `pre` before each name.
abbrev pub prepend : List ℕ → List Entry → List Entry
prepend pre [] = []
prepend pre ((name, e) ∷ names) = (pre ++ name, e) ∷ prepend pre names

abbrev pub HeadIs : ℕ → Entry → Type 0
HeadIs b e = (s : List ℕ) × (e.0 ≡ b ∷ s)

abbrev pub HeadAbove : ℕ → Entry → Type 0
HeadAbove b e = (x : ℕ) × (s : List ℕ) × (e.0 ≡ x ∷ s) × (b < x)

pub All-imp {ℓ κ} :
    {A : Type ℓ} {P Q : A → Type κ} (xs : List A) → ((x : A) → P x → Q x) → All P xs → All Q xs
All-imp [] f h = tt
All-imp (x ∷ xs) f (h, hs) = (f x h, All-imp xs f hs)

pub All-first {ℓ κ} :
    {A : Type ℓ} (P : A → Type κ) (xs ys : List A) → All P (xs ++ ys) → All P xs × All P ys
All-first P [] ys h = (tt, h)
All-first P (x ∷ xs) ys (h, hs) = let (front, back) = All-first P xs ys hs in ((h, front), back)

compare_self : (x : ℕ) → compare x x ≡ Ordering.eq
compare_self x = ground arith

pub name_cmp-append : (l xs ys : List ℕ) → name_cmp (l ++ xs) (l ++ ys) ≡ name_cmp xs ys
unfolding name_cmp
name_cmp-append [] xs ys = refl
name_cmp-append (x ∷ l) xs ys = rw (compare_self x, then_with) (name_cmp-append l xs ys)

-- A name that comes before another one has no greater first byte.
pub name_cmp-heads :
    (x y : ℕ) (xs ys : List ℕ)
    → name_cmp (x ∷ xs) (y ∷ ys) ≡ Ordering.lt
    → (x < y) ⊎ ((x ≡ y) × (name_cmp xs ys ≡ Ordering.lt))
unfolding name_cmp
name_cmp-heads x y xs ys h = ground arith

pub name_cmp-nil : (xs : List ℕ) → name_cmp xs [] ≢ Ordering.lt
unfolding name_cmp
name_cmp-nil [] h = cc
name_cmp-nil (x ∷ xs) h = cc

-- A name between two names that start alike starts like them.
pub between :
    (l xs zs ys : List ℕ)
    → name_cmp (l ++ xs) ys ≡ Ordering.lt
    → name_cmp ys (l ++ zs) ≡ Ordering.lt
    → (s : List ℕ) × (ys ≡ l ++ s)
between [] xs zs ys below above = (ys, refl)
between (x ∷ l) xs zs [] below above = absurd (name_cmp-nil (x ∷ l ++ xs) below)
between (x ∷ l) xs zs (y ∷ ys) below above = elim (name_cmp-heads x y (l ++ xs) ys below) [
  | inl lt ↦ elim (name_cmp-heads y x ys (l ++ zs) above) [
    | inl gt ↦ absurd (omega arith)
    | inr (e, more) ↦ absurd (omega arith)
  ]
  | inr (e, more) ↦ elim (name_cmp-heads y x ys (l ++ zs) above) [
    | inl gt ↦ absurd (omega arith)
    | inr (e', more') ↦ let (s, es) = between l xs zs ys more more' in (s, ap₂ ◌∷◌ (sym e) es)
  ]
]

pub IsSorted-prepend :
    (l : List ℕ) (names : List Entry) → IsSorted (prepend l names) → IsSorted names
IsSorted-prepend l [] h = tt
IsSorted-prepend l ((name, e) ∷ names) (h, hs) = (each names h, IsSorted-prepend l names hs)
  where
    each :
        (ys : List Entry)
        → All (λ (y : Entry). name_cmp (l ++ name) y.0 ≡ Ordering.lt) (prepend l ys)
        → All (λ (y : Entry). name_cmp name y.0 ≡ Ordering.lt) ys
    each [] k = tt
    each ((other_name, e') ∷ ys) (k, ks) = (sym (name_cmp-append l name other_name) ∙ k, each ys ks)

pub IsSorted-append : (xs ys : List Entry) → IsSorted (xs ++ ys) → IsSorted xs × IsSorted ys
IsSorted-append [] ys h = (tt, h)
IsSorted-append (x ∷ xs) ys (h, hs) =
    let (front, back) = IsSorted-append xs ys hs in
    (((All-first (λ (y : Entry). name_cmp x.0 y.0 ≡ Ordering.lt) xs ys h).0, front), back)
