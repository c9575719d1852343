-- ===== src/Util/CityHash/Total.antt =====
-- Every load of macho/util/cityhash.rs is within the string.
use mold_macho.Prelude.{
  some, Option, List, take, zero, suc, leb, length-drop, ◌<◌, true, ◌≡◌, arith, ◌+◌, get_elem?,
  length, ◌≤◌, refl, drop, [], ℕ, ◌∷◌, ◌-◌, ◌*◌, leb→gt, ◌/◌, ltb→lt, length-take, ltb, leb→le,
  Bool, false, if◌then◌else◌, le→leb,
}
use mold_macho.Prelude.Fallible.{◌>>=◌}
use mold_macho.Util.CityHash.{
  k2, load64, load32, weak_hash_len_32_with_seeds, hash_len_4_to_8, mix_end, hash, hash_len_over_64,
  City, hash_len_17_to_32, hash_len_33_to_64, mix_chunk, hash_len_9_to_16, hash_len_0_to_16,
  mix_chunks, hash_len_1_to_3, before_end, load64_end, load32_end,
}
use mold_macho.Util.Words.{read32, read64, read_le, from_le_bytes}

-- A load or a hash that has a result.
abbrev Gives : {A : Type 0} → Option A → Type 0
Gives {A} r = (a : A) × (r ≡ some a)

bind_in :
    {A B : Type 0} (r : Option A) (f : A → Option B)
    → Gives r
    → ((a : A) → Gives (f a))
    → Gives (r >>= f)
bind_in r f (a, e) more = let (b, e') = more a in (b, rw e e')

if_in :
    (b : Bool) {x y : Option ℕ}
    → (b ≡ true → Gives x)
    → (b ≡ false → Gives y)
    → Gives (if b then x else y)
if_in true hx hy = hx refl
if_in false hx hy = hy refl

load64_in : (s : List ℕ) (at : ℕ) → at + 8 ≤ length s → Gives (load64 s at)
unfolding load64 read64 read_le
load64_in s at h =
    let e : leb 8 (length (drop at s)) ≡ true = ground (arith, length-drop at s) in
    (from_le_bytes (take 8 (drop at s)), rw e refl)

load32_in : (s : List ℕ) (at : ℕ) → at + 4 ≤ length s → Gives (load32 s at)
unfolding load32 read32 read_le
load32_in s at h =
    let e : leb 4 (length (drop at s)) ≡ true = ground (arith, length-drop at s) in
    (from_le_bytes (take 4 (drop at s)), rw e refl)

get_elem?_in : (s : List ℕ) (i : ℕ) → i < length s → Gives (get_elem? s i)
get_elem?_in [] i h = absurd (omega arith)
get_elem?_in (x ∷ s) zero h = (x, refl)
get_elem?_in (x ∷ s) (suc i) h = get_elem?_in s i (omega arith)

before_end_in :
    (s : List ℕ) (n : ℕ)
    → n ≤ length s
    → (at : ℕ) × (before_end s n ≡ some at) × (at + n ≡ length s)
unfolding before_end
before_end_in s n h = (length s - n, rw (le→leb n (length s) h) refl, omega arith)

-- A place before the end, and what goes on from there.
end_then :
    {B : Type 0} (s : List ℕ) (n : ℕ) (f : ℕ → Option B)
    → n ≤ length s
    → ((at : ℕ) → at + n ≡ length s → Gives (f at))
    → Gives (before_end s n >>= f)
end_then s n f h more =
    let (at, e, sum) = before_end_in s n h in let (b, e') = more at sum in (b, rw e e')

load64_end_then :
    {B : Type 0} (s : List ℕ) (n : ℕ) (f : ℕ → Option B)
    → n ≤ length s
    → 8 ≤ n
    → ((a : ℕ) → Gives (f a))
    → Gives (load64_end s n >>= f)
unfolding load64_end
load64_end_then s n f h wide more =
    bind_in (load64_end s n) f (end_then s n (load64 s) h (λ at sum. load64_in s at (omega arith)))
      more

-- A load before the rest of a function.
load64_then :
    {B : Type 0} (s : List ℕ) (at : ℕ) (f : ℕ → Option B)
    → at + 8 ≤ length s
    → ((a : ℕ) → Gives (f a))
    → Gives (load64 s at >>= f)
load64_then s at f h more = bind_in (load64 s at) f (load64_in s at h) more

weak_in : (s : List ℕ) (a b : ℕ) → 32 ≤ length s → Gives (weak_hash_len_32_with_seeds s a b)
unfolding weak_hash_len_32_with_seeds
weak_in s a b h = load64_then s 0 _ (omega arith) (λ w. load64_then s 8 _ (omega arith) (λ x.
    load64_then s 16 _ (omega arith) (λ y. load64_then s 24 _ (omega arith) (λ z. (_, refl)))))

hash_len_1_to_3_in : (s : List ℕ) → 0 < length s → Gives (hash_len_1_to_3 s)
unfolding hash_len_1_to_3
hash_len_1_to_3_in s h = bind_in (get_elem? s 0) _ (get_elem?_in s 0 h) (λ a.
    bind_in (get_elem? s (length s / 2)) _ (get_elem?_in s (length s / 2) (omega arith)) (λ b.
      bind_in (before_end s 1 >>= get_elem? s) _
        (end_then s 1 (get_elem? s) (omega arith) (λ at sum. get_elem?_in s at (omega arith)))
        (λ c. (_, refl))))

hash_len_4_to_8_in : (s : List ℕ) → 4 ≤ length s → Gives (hash_len_4_to_8 s)
unfolding hash_len_4_to_8
hash_len_4_to_8_in s h = bind_in (load32 s 0) _ (load32_in s 0 (omega arith)) (λ a.
    bind_in (load32_end s 4) _
      (unfold load32_end in end_then s 4 (load32 s) h (λ at sum. load32_in s at (omega arith)))
      (λ b. (_, refl)))

hash_len_9_to_16_in : (s : List ℕ) → 8 ≤ length s → Gives (hash_len_9_to_16 s)
unfolding hash_len_9_to_16
hash_len_9_to_16_in s h =
    load64_then s 0 _ (omega arith)
      (λ a. load64_end_then s 8 _ (omega arith) (omega arith) (λ b. (_, refl)))

hash_len_0_to_16_in : (s : List ℕ) → Gives (hash_len_0_to_16 s)
unfolding hash_len_0_to_16
hash_len_0_to_16_in s =
    if_in (ltb 8 (length s)) (λ long. hash_len_9_to_16_in s (omega (arith, ltb→lt _ _ long)))
      (λ short.
        if_in (leb 4 (length s)) (λ some_left. hash_len_4_to_8_in s (leb→le _ _ some_left))
          (λ few.
            if_in (ltb 0 (length s)) (λ any. hash_len_1_to_3_in s (ltb→lt _ _ any))
              (λ empty. (k2, refl))))

hash_len_17_to_32_in : (s : List ℕ) → 16 ≤ length s → Gives (hash_len_17_to_32 s)
unfolding hash_len_17_to_32
hash_len_17_to_32_in s h = load64_then s 0 _ (omega arith) (λ a.
    load64_then s 8 _ (omega arith) (λ b.
      load64_end_then s 8 _ (omega arith) (omega arith)
        (λ c. load64_end_then s 16 _ (omega arith) (omega arith) (λ d. (_, refl)))))

hash_len_33_to_64_in : (s : List ℕ) → 32 ≤ length s → Gives (hash_len_33_to_64 s)
unfolding hash_len_33_to_64
hash_len_33_to_64_in s h = load64_then s 24 _ (omega arith) (λ a.
    load64_then s 0 _ (omega arith) (λ b. load64_end_then s 16 _ (omega arith) (omega arith) (λ c.
      load64_then s 8 _ (omega arith) (λ d. load64_then s 16 _ (omega arith) (λ e.
        load64_end_then s 32 _ (omega arith) (omega arith) (λ f.
          load64_end_then s 8 _ (omega arith) (omega arith)
            (λ g. load64_end_then s 24 _ (omega arith) (omega arith) (λ i. (_, refl)))))))))

mix_chunk_in : (s : List ℕ) (st : City) → 64 ≤ length s → Gives (mix_chunk s st)
unfolding mix_chunk
mix_chunk_in s st h = load64_then s 8 _ (omega arith) (λ a. load64_then s 48 _ (omega arith) (λ b.
    load64_then s 40 _ (omega arith) (λ c. load64_then s 16 _ (omega arith) (λ d.
      bind_in _ _ (weak_in s _ _ (omega arith)) (λ v.
        bind_in _ _ (weak_in (drop 32 s) _ _ (omega (arith, length-drop 32 s)))
          (λ w. (_, refl)))))))

mix_chunks_in : (n : ℕ) (s : List ℕ) (st : City) → n * 64 ≤ length s → Gives (mix_chunks n s st)
unfolding mix_chunks
mix_chunks_in zero s st h = (st, refl)
mix_chunks_in (suc n) s st h =
    bind_in _ _ (mix_chunk_in (take 64 s) st (omega (arith, length-take 64 s)))
      (λ st'. mix_chunks_in n (drop 64 s) st' (omega (arith, length-drop 64 s)))

mix_end_in : (s : List ℕ) → 64 ≤ length s → Gives (mix_end s)
unfolding mix_end
mix_end_in s h = load64_end_then s 40 _ (omega arith) (omega arith) (λ a.
    load64_end_then s 16 _ (omega arith) (omega arith) (λ b.
      load64_end_then s 56 _ (omega arith) (omega arith) (λ c.
        load64_end_then s 48 _ (omega arith) (omega arith) (λ d.
          load64_end_then s 24 _ (omega arith) (omega arith) (λ e.
            bind_in _ _
              (end_then s 64 _ (omega arith)
                (λ at sum. weak_in (drop at s) _ _ (omega (arith, length-drop at s))))
              (λ v.
                bind_in _ _
                  (end_then s 32 _ (omega arith)
                    (λ at sum. weak_in (drop at s) _ _ (omega (arith, length-drop at s))))
                  (λ w. load64_then s 0 _ (omega arith) (λ f. (_, refl)))))))))

hash_len_over_64_in : (s : List ℕ) → 64 ≤ length s → Gives (hash_len_over_64 s)
unfolding hash_len_over_64
hash_len_over_64_in s h = bind_in (mix_end s) _ (mix_end_in s h) (λ st.
    end_then s 1 _ (omega arith)
      (λ at sum. bind_in _ _ (mix_chunks_in (at / 64) s st (omega arith)) (λ st'. (_, refl))))

-- Every string, of whatever length, has a hash: no load, index or slice is out of the string's
-- bounds, and no subtraction from its length goes below 0.
pub hash-total : (s : List ℕ) → (h : ℕ) × (hash s ≡ some h)
unfolding hash
hash-total s =
    if_in (leb (length s) 16) (λ le. hash_len_0_to_16_in s)
      (λ over.
        if_in (leb (length s) 32) (λ le. hash_len_17_to_32_in s (omega (arith, leb→gt _ _ over)))
          (λ over'.
            if_in (leb (length s) 64)
              (λ le. hash_len_33_to_64_in s (omega (arith, leb→gt _ _ over')))
              (λ more. hash_len_over_64_in s (omega (arith, leb→gt _ _ more)))))
