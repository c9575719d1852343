-- ===== src/Chunks/FunctionStarts/RoundTrip.antt =====
-- A debugger reads back the function starts, sorted and without repetition.
use mathlib.Core.Path.{subst}
use mold_macho.Chunks.FunctionStarts.{encode_deltas, dedup_after, dedup, construct}
use mold_macho.Chunks.Rebase.Stream.{encode_uleb-append}
use mold_macho.Prelude.{
  some, inr, if◌then◌else◌, ◌≤◌, [], ◌∙◌, inl, ◌%◌, zero, append-nil, Option, ◌≡◌, append_assoc,
  sym, List, length, ◌+◌, suc, arith, ==_iff, Bool-cases, true, ◌^◌, none, ◌<◌, length-append, ◌++◌,
  ◌-◌, ℕ, ◌∷◌, ◌==◌, refl,
}
use mold_macho.Prelude.Bytes.{All, pad_to}
use mold_macho.Prelude.Fallible.{◌>>=◌}
use mold_macho.Prelude.Sort.{IsSorted, sort, All-sort, sort-IsSorted}
use mold_macho.Prelude.Words.{IsU64}
use mold_macho.Util.Leb.{read_uleb, encode_uleb, read_uleb_loop, add_group}
use mold_macho.Util.Leb.Unsigned.{read_uleb-encode_uleb}

-- What a debugger does with the table: it adds up the differences until a zero. Each takes a byte,
-- which bounds the fuel.
unfoldable pub read_starts : ℕ → ℕ → List ℕ → Option (List ℕ)
read_starts zero last bytes = none
read_starts (suc fuel) last bytes = read_uleb bytes >>= (λ (delta, rest).
    let more = read_starts fuel (last + delta) rest >>= (λ found. some ((last + delta) ∷ found)) in
    if delta == 0 then some [] else more)

unfoldable pub read_table : ℕ → List ℕ → Option (List ℕ)
unfolding read_starts
read_table base bytes = read_starts (length bytes) base bytes

-- Each address is greater than the one before it, the first than `last`, and all are u64s.
Climbs : ℕ → List ℕ → Type 0
Climbs last [] = Unit
Climbs last (a ∷ addrs) = (last < a) × IsU64 a × Climbs a addrs

dedup_after-Climbs :
    (last : ℕ) (addrs : List ℕ)
    → IsSorted (last ∷ addrs)
    → All IsU64 addrs
    → Climbs last (dedup_after last addrs)
unfolding dedup_after Climbs
dedup_after-Climbs last [] h hu = tt
dedup_after-Climbs last (a ∷ addrs) (le, h) (hu, hus) = elim (Bool-cases (a == last)) [
  | inl same ↦
      let e = (==_iff a last).0 same in
      rw same (dedup_after-Climbs last addrs (subst (λ (x : ℕ). IsSorted (x ∷ addrs)) e h) hus)
  | inr other ↦ rw other (ground arith, hu, dedup_after-Climbs a addrs h hus)
]

dedup-Climbs :
    (base : ℕ) (addrs : List ℕ)
    → IsSorted addrs
    → All (λ a. (base < a) × IsU64 a) addrs
    → Climbs base (dedup addrs)
unfolding dedup Climbs
dedup-Climbs base [] h hu = tt
dedup-Climbs base (a ∷ addrs) h ((hb, hu), hus) =
    (hb, hu, dedup_after-Climbs a addrs h (words addrs hus))
  where
    words : (found : List ℕ) → All (λ x. (base < x) × IsU64 x) found → All IsU64 found
    words [] k = tt
    words (x ∷ found) ((kb, ku), ks) = (ku, words found ks)

-- The codes of the differences.
deltas : ℕ → List ℕ → List ℕ
deltas last [] = []
deltas last (a ∷ addrs) = encode_uleb [] (a - last) ++ deltas a addrs

encode_deltas-deltas :
    (buf : List ℕ) (last : ℕ) (addrs : List ℕ)
    → Climbs last addrs
    → encode_deltas buf last addrs ≡ buf ++ deltas last addrs
unfolding encode_deltas deltas Climbs
encode_deltas-deltas buf last [] h = sym (append-nil buf)
encode_deltas-deltas buf last (a ∷ addrs) (lt, u, h) =
    let e : (a + 2 ^ 64 - last) % 2 ^ 64 ≡ a - last = omega arith in
    rw (e, encode_uleb-append buf (a - last) (omega arith))
      (encode_deltas-deltas (buf ++ encode_uleb [] (a - last)) a addrs h
        ∙ append_assoc buf (encode_uleb [] (a - last)) (deltas a addrs))

read_starts_delta :
    (fuel last delta : ℕ) (rest : List ℕ)
    → 0 < delta
    → IsU64 delta
    → read_starts (suc fuel) last (encode_uleb [] delta ++ rest)
      ≡ (read_starts fuel (last + delta) rest >>= (λ found. some ((last + delta) ∷ found)))
unfolding read_starts
read_starts_delta fuel last delta rest h u = ground (arith, read_uleb-encode_uleb delta rest u)

read_starts-deltas :
    (fuel last : ℕ) (addrs rest : List ℕ)
    → Climbs last addrs
    → length addrs < fuel
    → read_starts fuel last (deltas last addrs ++ 0 ∷ rest) ≡ some addrs
unfolding deltas Climbs
read_starts-deltas zero last addrs rest h hf = absurd (omega arith)
read_starts-deltas (suc fuel) last [] rest h hf =
    unfold read_starts read_uleb read_uleb_loop add_group in refl
read_starts-deltas (suc fuel) last (a ∷ addrs) rest (lt, u, h) hf =
    let e : last + (a - last) ≡ a = omega arith in
    let after = read_starts-deltas fuel a addrs rest h (omega arith) in
    rw
      (
        append_assoc (encode_uleb [] (a - last)) (deltas a addrs) (0 ∷ rest),
        read_starts_delta fuel last (a - last) (deltas a addrs ++ 0 ∷ rest) (omega arith)
            (omega arith),
        e,
        after,
      )
      refl

-- What a value is read from has a byte.
read_byte : (code : List ℕ) {v : ℕ × List ℕ} → read_uleb (code ++ []) ≡ some v → 1 ≤ length code
unfolding read_uleb read_uleb_loop
read_byte [] h = cc
read_byte (b ∷ code) h = omega arith

length-deltas :
    (last : ℕ) (addrs : List ℕ) → Climbs last addrs → length addrs ≤ length (deltas last addrs)
unfolding deltas Climbs
length-deltas last [] h = omega arith
length-deltas last (a ∷ addrs) (lt, u, h) = omega (
  arith,
  length-append (encode_uleb [] (a - last)) (deltas a addrs),
  length-deltas a addrs h,
  read_byte (encode_uleb [] (a - last)) (read_uleb-encode_uleb (a - last) [] (omega arith)),
)

read_length :
    (base : ℕ) (addrs zeros : List ℕ)
    → Climbs base addrs
    → read_table base ((deltas base addrs ++ 0 ∷ []) ++ zeros) ≡ some addrs
unfolding read_table
read_length base addrs zeros h =
    let size = length-append (deltas base addrs) (0 ∷ zeros) in
    rw (append_assoc (deltas base addrs) (0 ∷ []) zeros) (
      read_starts-deltas (length (deltas base addrs ++ 0 ∷ zeros)) base addrs zeros h
        (omega (arith, length-deltas base addrs h)))

-- For function starts above the mach header's address and inside the address space, a reader of the
-- table gets them back in ascending order, each once.
pub construct-read_table :
    (base : ℕ) (starts : List ℕ)
    → All (λ a. (base < a) × IsU64 a) starts
    → read_table base (construct true base starts) ≡ some (dedup (sort starts))
unfolding construct
construct-read_table base [] h =
    unfold read_table read_starts read_uleb read_uleb_loop add_group sort dedup in refl
construct-read_table base (a ∷ more) h =
    let sorted = sort (a ∷ more) in
    let climbs =
      dedup-Climbs base sorted (sort-IsSorted (a ∷ more))
        (All-sort (λ x. (base < x) × IsU64 x) (a ∷ more) h) in
    rw (encode_deltas-deltas [] base (dedup sorted) climbs)
      (unfold pad_to in read_length base (dedup sorted) _ climbs)
