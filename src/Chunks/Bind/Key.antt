-- ===== src/Chunks/Bind/Key.antt =====
-- The orders that the binds are sorted by, as relations: of i32 and i64, of names, and of the keys.
use mold_macho.Chunks.Bind.{Bind, bind_le, int_cmp, no_later}
use mold_macho.Chunks.WeakBind.{WeakBind, weak_le}
use mold_macho.Prelude.{
  inr, ap₂, true, ◌⊎◌, ◌∷◌, ap, ◌≤◌, sym, [], Ordering, refl, compare, arith, ℕ, ◌<◌, inl, ◌≡◌,
  false, List,
}
use mold_macho.Prelude.Int.{pos, negsuc, ℤ}
use mold_macho.Util.Names.{name_cmp, then_with}

-- A number before another.
abbrev pub IntBefore : ℤ → ℤ → Type 0
IntBefore (pos m) (pos n) = m < n
IntBefore (pos m) (negsuc n) = ⊥
IntBefore (negsuc m) (pos n) = Unit
IntBefore (negsuc m) (negsuc n) = n < m

-- A name before another: a prefix of it, or smaller at the first byte that differs.
abbrev pub NameBefore : List ℕ → List ℕ → Type 0
NameBefore a [] = ⊥
NameBefore [] (y ∷ ys) = Unit
NameBefore (x ∷ xs) (y ∷ ys) = (x < y) ⊎ ((x ≡ y) × NameBefore xs ys)

-- The key (library, name, addend, address).
abbrev pub KeyLe : (ℕ → List ℕ) → (ℕ → ℤ) → Bind → Bind → Type 0
KeyLe name ordinal a b =
    IntBefore (ordinal a.sym) (ordinal b.sym)
    ⊎ ((ordinal a.sym ≡ ordinal b.sym)
        × (NameBefore (name a.sym) (name b.sym)
            ⊎ ((name a.sym ≡ name b.sym)
                × (IntBefore a.plus b.plus ⊎ ((a.plus ≡ b.plus) × (a.at ≤ b.at))))))

-- The key (name, address) of a weak bind.
abbrev pub WeakLe : (ℕ → List ℕ) → WeakBind → WeakBind → Type 0
WeakLe name a b = NameBefore (name a.0) (name b.0) ⊎ ((name a.0 ≡ name b.0) × (a.1 ≤ b.1))

-- What the three orderings mean.
data Says (P Q R : Type 0) : Ordering → Type 0 where
  less : P → Says P Q R Ordering.lt
  same : Q → Says P Q R Ordering.eq
  greater : R → Says P Q R Ordering.gt

-- An ordering of two keys, by the two sides of an order that both may be.
data Orders (L G : Type 0) : Ordering → Type 0 where
  below : L → Orders L G Ordering.lt
  level : L → G → Orders L G Ordering.eq
  above : G → Orders L G Ordering.gt

compare-Says : (m n : ℕ) → Says (m < n) (m ≡ n) (n < m) (compare m n)
compare-Says m n = says (compare m n) (ground arith) (ground arith) (ground arith)
  where
    says :
        (o : Ordering)
        → (o ≡ Ordering.lt → m < n)
        → (o ≡ Ordering.eq → m ≡ n)
        → (o ≡ Ordering.gt → n < m)
        → Says (m < n) (m ≡ n) (n < m) o
    says Ordering.lt f g h = less (f refl)
    says Ordering.eq f g h = same (g refl)
    says Ordering.gt f g h = greater (h refl)

compare-Orders : (m n : ℕ) → Orders (m ≤ n) (n ≤ m) (compare m n)
compare-Orders m n = orders (compare m n) (compare-Says m n)
  where
    orders : (o : Ordering) → Says (m < n) (m ≡ n) (n < m) o → Orders (m ≤ n) (n ≤ m) o
    orders Ordering.lt (less h) = below (omega arith)
    orders Ordering.eq (same h) = level (omega arith) (omega arith)
    orders Ordering.gt (greater h) = above (omega arith)

then_with-Orders :
    {P Q R L G : Type 0} {o p : Ordering}
    → Says P Q R o
    → Orders L G p
    → Orders (P ⊎ (Q × L)) (R ⊎ (Q × G)) (then_with o p)
then_with-Orders (less h) k = below (inl h)
then_with-Orders (same h) (below l) = below (inr (h, l))
then_with-Orders (same h) (level l g) = level (inr (h, l)) (inr (h, g))
then_with-Orders (same h) (above g) = above (inr (h, g))
then_with-Orders (greater h) k = above (inl h)

Says-map :
    {P Q R P' Q' R' : Type 0} {o : Ordering}
    → (P → P')
    → (Q → Q')
    → (R → R')
    → Says P Q R o
    → Says P' Q' R' o
Says-map f g k (less h) = less (f h)
Says-map f g k (same h) = same (g h)
Says-map f g k (greater h) = greater (k h)

int_cmp-Says : (a b : ℤ) → Says (IntBefore a b) (a ≡ b) (IntBefore b a) (int_cmp a b)
unfolding int_cmp
int_cmp-Says (pos m) (pos n) = Says-map (λ h. h) (λ h. ap pos h) (λ h. h) (compare-Says m n)
int_cmp-Says (pos m) (negsuc n) = greater tt
int_cmp-Says (negsuc m) (pos n) = less tt
int_cmp-Says (negsuc m) (negsuc n) =
    Says-map (λ h. h) (λ h. ap negsuc (sym h)) (λ h. h) (compare-Says n m)

name_then :
    (x y : ℕ) (xs ys : List ℕ) {o p : Ordering}
    → Says (x < y) (x ≡ y) (y < x) o
    → Says (NameBefore xs ys) (xs ≡ ys) (NameBefore ys xs) p
    → Says
        (NameBefore (x ∷ xs) (y ∷ ys))
        (x ∷ xs ≡ y ∷ ys)
        (NameBefore (y ∷ ys) (x ∷ xs))
        (then_with o p)
name_then x y xs ys (less h) k = less (inl h)
name_then x y xs ys (same h) (less k) = less (inr (h, k))
name_then x y xs ys (same h) (same k) = same (ap₂ (λ (c : ℕ) (cs : List ℕ). c ∷ cs) h k)
name_then x y xs ys (same h) (greater k) = greater (inr (sym h, k))
name_then x y xs ys (greater h) k = greater (inl h)

name_cmp-Says : (a b : List ℕ) → Says (NameBefore a b) (a ≡ b) (NameBefore b a) (name_cmp a b)
unfolding name_cmp
name_cmp-Says [] [] = same refl
name_cmp-Says [] (y ∷ ys) = less tt
name_cmp-Says (x ∷ xs) [] = greater tt
name_cmp-Says (x ∷ xs) (y ∷ ys) = name_then x y xs ys (compare-Says x y) (name_cmp-Says xs ys)

at_most : {L G : Type 0} {o : Ordering} → Orders L G o → no_later o ≡ true → L
at_most (below l) e = l
at_most (level l g) e = l
at_most (above g) e = absurd cc

at_least : {L G : Type 0} {o : Ordering} → Orders L G o → no_later o ≡ false → G
at_least (below l) e = absurd cc
at_least (level l g) e = g
at_least (above g) e = g

-- An equation read backwards, in the second part of an order.
turned : {A : Type 0} {x y : A} {P R S : Type 0} → (R → S) → P ⊎ ((x ≡ y) × R) → P ⊎ ((y ≡ x) × S)
turned f (inl h) = inl h
turned f (inr (e, r)) = inr (sym e, f r)

module _ (name : ℕ → List ℕ) where
  module _ (ordinal : ℕ → ℤ) (a b : Bind) where
    pub bind_le-true : bind_le name ordinal a b ≡ true → KeyLe name ordinal a b
    unfolding bind_le
    bind_le-true h =
        at_most
          (then_with-Orders (int_cmp-Says (ordinal a.sym) (ordinal b.sym)) (
            then_with-Orders (name_cmp-Says (name a.sym) (name b.sym))
              (then_with-Orders (int_cmp-Says a.plus b.plus) (compare-Orders a.at b.at))))
          h

    pub bind_le-false : bind_le name ordinal a b ≡ false → KeyLe name ordinal b a
    unfolding bind_le
    bind_le-false h = turned (turned (turned (λ x. x))) (
        at_least
          (then_with-Orders (int_cmp-Says (ordinal a.sym) (ordinal b.sym)) (
            then_with-Orders (name_cmp-Says (name a.sym) (name b.sym))
              (then_with-Orders (int_cmp-Says a.plus b.plus) (compare-Orders a.at b.at))))
          h)

  module _ (a b : WeakBind) where
    pub weak_le-true : weak_le name a b ≡ true → WeakLe name a b
    unfolding weak_le
    weak_le-true h =
        at_most (then_with-Orders (name_cmp-Says (name a.0) (name b.0)) (compare-Orders a.1 b.1)) h

    pub weak_le-false : weak_le name a b ≡ false → WeakLe name b a
    unfolding weak_le
    weak_le-false h =
        turned (λ x. x)
          (at_least
            (then_with-Orders (name_cmp-Says (name a.0) (name b.0)) (compare-Orders a.1 b.1)) h)
