-- ===== src/Util/SipHash/Finish.antt =====
-- The hash of macho/util/siphash.rs does not depend on how a message is cut into updates.
use mold_macho.Prelude.{
  ◌++◌, length-take, ◌<◌, ap, sym, ℕ, length, ap₂, arith, refl, ◌^◌, ◌∙◌, length-append, take, ◌≡◌,
  List, ◌%◌, [], ◌≢◌, ◌+◌, ℕ_discrete,
}
use mold_macho.Util.SipHash.{SipHash, update, finish, update_u64, Words, compress}
use mold_macho.Util.SipHash.Streaming.{
  take-all, feed-append, IsHasher, FedBy, view, update-feed, feed, view-empty, feed-fill,
}
use mold_macho.Util.Words.{to_le_bytes, from_le_bytes-to_le_bytes, length-to_le_bytes}
use native.Mathlib.Nat.{mod-eq_of_lt}

finish_of : ℕ → ℕ → ℕ → Words × List ℕ → ℕ → List ℕ
finish_of c d outlen (v, pending) sum =
    finish c d outlen (record { v = v; buf = pending; buflen = length pending; sum = sum })

finish-view :
    (c d outlen : ℕ) (h : SipHash)
    → IsHasher h
    → finish c d outlen h ≡ finish_of c d outlen (view h) h.sum
unfolding finish finish_of view IsHasher
finish-view c d outlen h (e, b) =
    let len : length (take h.buflen h.buf) ≡ h.buflen = omega (arith, length-take h.buflen h.buf) in
    rw (len, take-all (take h.buflen h.buf) h.buflen len) refl

-- A message given in two pieces and the whole message have the same hash.
pub finish-update_append :
    (c d outlen : ℕ) (h : SipHash) (a b : List ℕ)
    → IsHasher h
    → finish c d outlen (update c (update c h a) b) ≡ finish c d outlen (update c h (a ++ b))
unfolding FedBy
finish-update_append c d outlen h a b good =
    let (view_a, good_a, sum_a) = update-feed c h a good in
    let (view_b, good_b, sum_b) = update-feed c (update c h a) b good_a in
    let (view_ab, good_ab, sum_ab) = update-feed c h (a ++ b) good in
    let views : view (update c (update c h a) b) ≡ view (update c h (a ++ b)) =
      view_b ∙ ap (λ s. feed c s b) view_a ∙ sym (feed-append c (view h) a b) ∙ sym view_ab in
    let sums : (update c (update c h a) b).sum ≡ (update c h (a ++ b)).sum =
      omega (arith, length-append a b) in
    finish-view c d outlen (update c (update c h a) b) good_b
    ∙ ap₂ (λ s t. finish_of c d outlen s t) views sums
    ∙ sym (finish-view c d outlen (update c h (a ++ b)) good_ab)

aligned : ℕ → SipHash → ℕ → SipHash
aligned c h word = record h { sum = (h.sum + 8) % 256; v = compress c h.v word }

update_u64-aligned :
    (c : ℕ) (h : SipHash) (word : ℕ) → h.buflen ≡ 0 → update_u64 c h word ≡ aligned c h word
unfolding update_u64 aligned
update_u64-aligned c h word z = ground arith

update_u64-buffered :
    (c : ℕ) (h : SipHash) (word : ℕ)
    → h.buflen ≢ 0
    → update_u64 c h word ≡ update c h (to_le_bytes 8 word)
unfolding update_u64
update_u64-buffered c h word z = ground arith

aligned-view :
    (c : ℕ) (h : SipHash) (word : ℕ)
    → h.buflen ≡ 0
    → view (aligned c h word) ≡ (compress c h.v word, [])
unfolding aligned
aligned-view c h word z = view-empty c (aligned c h word) z

aligned-IsHasher : (c : ℕ) (h : SipHash) (word : ℕ) → IsHasher h → IsHasher (aligned c h word)
unfolding aligned IsHasher
aligned-IsHasher c h word (e, b) = (e, b)

feed-word :
    (c : ℕ) (v : Words) (word : ℕ)
    → word < 2 ^ 64
    → feed c (v, []) (to_le_bytes 8 word) ≡ (compress c v word, [])
feed-word c v word w =
    feed-fill c v [] (to_le_bytes 8 word) (omega arith) (omega (arith, length-to_le_bytes 8 word))
    ∙ ap (λ m. (compress c v m, [])) (from_le_bytes-to_le_bytes 8 word ∙ mod-eq_of_lt w)

-- The word-aligned shortcut of `update_u64` is `update` on the eight bytes of the word.
pub finish-update_u64 :
    (c d outlen : ℕ) (h : SipHash) (word : ℕ)
    → IsHasher h
    → word < 2 ^ 64
    → finish c d outlen (update_u64 c h word) ≡ finish c d outlen (update c h (to_le_bytes 8 word))
unfolding FedBy aligned
finish-update_u64 c d outlen h word good w = elim (ℕ_discrete h.buflen 0) [
  | yes z ↦ shortcut z
  | no z ↦ ap (λ s. finish c d outlen s) (update_u64-buffered c h word z)
]
  where
    shortcut :
        h.buflen ≡ 0
        → finish c d outlen (update_u64 c h word)
          ≡ finish c d outlen (update c h (to_le_bytes 8 word))
    shortcut z =
        let (fed, good', sum) = update-feed c h (to_le_bytes 8 word) good in
        let whole : feed c (view h) (to_le_bytes 8 word) ≡ (compress c h.v word, []) =
          rw (view-empty c h z) (feed-word c h.v word w) in
        rw (update_u64-aligned c h word z) (
          finish-view c d outlen (aligned c h word) (aligned-IsHasher c h word good)
          ∙ ap₂ (λ s t. finish_of c d outlen s t) (aligned-view c h word z ∙ sym (fed ∙ whole))
              (omega (arith, length-to_le_bytes 8 word))
          ∙ sym (finish-view c d outlen (update c h (to_le_bytes 8 word)) good'))
