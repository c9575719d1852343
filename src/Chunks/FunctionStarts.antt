-- ===== src/Chunks/FunctionStarts.antt =====
-- macho/chunks/function_starts.rs: the table of function starts, from the addresses gathered.
pub mod RoundTrip
use mold_macho.Prelude.{
  if◌then◌else◌, ◌^◌, ◌∷◌, ◌+◌, ℕ, ◌-◌, ◌++◌, ◌==◌, [], replicate, List, ◌%◌, Bool,
}
use mold_macho.Prelude.Bytes.{pad_to}
use mold_macho.Prelude.Sort.{sort}
use mold_macho.Util.Leb.{encode_uleb}

-- `Vec::dedup`, behind an element that was kept.
unfoldable pub dedup_after : ℕ → List ℕ → List ℕ
dedup_after last [] = []
dedup_after last (a ∷ addrs) =
    let kept = a ∷ dedup_after a addrs in
    let dropped = dedup_after last addrs in if a == last then dropped else kept

unfoldable pub dedup : List ℕ → List ℕ
unfolding dedup_after
dedup [] = []
dedup (a ∷ addrs) = a ∷ dedup_after a addrs

unfoldable pub encode_deltas : List ℕ → ℕ → List ℕ → List ℕ
encode_deltas buf last [] = buf
encode_deltas buf last (addr ∷ addrs) =
    encode_deltas (encode_uleb buf ((addr + 2 ^ 64 - last) % 2 ^ 64)) addr addrs

-- `construct` on the starts gathered; `base` is the address of the mach header, and `enabled` the
-- option that asks for the table.
unfoldable pub construct : Bool → ℕ → List ℕ → List ℕ
unfolding dedup encode_deltas sort pad_to
construct enabled base starts =
    if enabled
    then (elim starts [
      | [] ↦ replicate 8 0
      | a ∷ more ↦ pad_to 8 (encode_deltas [] base (dedup (sort (a ∷ more))) ++ 0 ∷ [])
    ])
    else []
