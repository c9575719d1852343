-- ===== src/Util/SipHash/Streaming.antt =====
-- The buffering of macho/util/siphash.rs against a hasher that takes a byte at a time.
use mold_macho.Prelude.{
  ◌∷◌, length, ◌+◌, append_assoc, refl, ◌≡◌, List, length-append, [], ◌++◌, length-drop, take, ℕ,
  if◌then◌else◌, arith, ◌==◌, ◌≤◌, ◌<◌, drop, length-take, append-nil, ap, ◌≢◌, ◌∙◌, ◌%◌,
  ℕ_discrete, dec_lt, ◌-◌, take-append-drop, sym,
}
use mold_macho.Util.SipHash.{
  SipHash, compress, compress_words, copy_at, update_words, update, Words,
}
use mold_macho.Util.Words.{from_le_bytes, take-append}

-- Takes one byte: the eighth completes a word, which is compressed.
unfoldable pub feed_byte : ℕ → Words × List ℕ → ℕ → Words × List ℕ
feed_byte c (v, pending) b =
    if length pending == 7
    then (compress c v (from_le_bytes (pending ++ (b ∷ []))), [])
    else (v, pending ++ (b ∷ []))

unfoldable pub feed : ℕ → Words × List ℕ → List ℕ → Words × List ℕ
unfolding feed_byte
feed c s [] = s
feed c s (b ∷ msg) = feed c (feed_byte c s b) msg

-- The state and the bytes that wait.
unfoldable pub view : SipHash → Words × List ℕ
view h = (h.v, take h.buflen h.buf)

-- The array has eight bytes, and not all of them wait.
unfoldable pub IsHasher : SipHash → Type 0
IsHasher h = (length h.buf ≡ 8) × (h.buflen < 8)

pub feed-append :
    (c : ℕ) (s : Words × List ℕ) (a b : List ℕ) → feed c s (a ++ b) ≡ feed c (feed c s a) b
unfolding feed
feed-append c s [] b = refl
feed-append c s (x ∷ a) b = feed-append c (feed_byte c s x) a b

feed_byte_wait :
    (c : ℕ) (v : Words) (p : List ℕ) (b : ℕ)
    → length p < 7
    → feed_byte c (v, p) b ≡ (v, p ++ (b ∷ []))
unfolding feed_byte
feed_byte_wait c v p b h = ground arith

feed_byte_complete :
    (c : ℕ) (v : Words) (p : List ℕ) (b : ℕ)
    → length p ≡ 7
    → feed_byte c (v, p) b ≡ (compress c v (from_le_bytes (p ++ (b ∷ []))), [])
unfolding feed_byte
feed_byte_complete c v p b h = ground arith

feed-short :
    (c : ℕ) (v : Words) (p msg : List ℕ)
    → length p + length msg < 8
    → feed c (v, p) msg ≡ (v, p ++ msg)
unfolding feed
feed-short c v p [] h = rw (append-nil p) refl
feed-short c v p (b ∷ msg) h =
    rw
      (
        feed_byte_wait c v p b (omega arith),
        feed-short c v (p ++ (b ∷ [])) msg (omega (arith, length-append p (b ∷ []))),
        append_assoc p (b ∷ []) msg,
      )
      refl

pub feed-fill :
    (c : ℕ) (v : Words) (p msg : List ℕ)
    → length p < 8
    → length p + length msg ≡ 8
    → feed c (v, p) msg ≡ (compress c v (from_le_bytes (p ++ msg)), [])
unfolding feed
feed-fill c v p [] l h = absurd (omega arith)
feed-fill c v p (b ∷ []) l h = feed_byte_complete c v p b (omega arith)
feed-fill c v p (b ∷ b' ∷ msg) l h =
    rw
      (
        feed_byte_wait c v p b (omega arith),
        feed-fill c v (p ++ (b ∷ [])) (b' ∷ msg) (omega (arith, length-append p (b ∷ [])))
            (omega (arith, length-append p (b ∷ []))),
        append_assoc p (b ∷ []) (b' ∷ msg),
      )
      refl

compress_words-feed :
    (c : ℕ) (v : Words) (msg : List ℕ) → feed c (v, []) msg ≡ compress_words c v msg
unfolding feed compress_words
compress_words-feed c v [] = refl
compress_words-feed c v (a0 ∷ []) = refl
compress_words-feed c v (a0 ∷ a1 ∷ []) = refl
compress_words-feed c v (a0 ∷ a1 ∷ a2 ∷ []) = refl
compress_words-feed c v (a0 ∷ a1 ∷ a2 ∷ a3 ∷ []) = refl
compress_words-feed c v (a0 ∷ a1 ∷ a2 ∷ a3 ∷ a4 ∷ []) = refl
compress_words-feed c v (a0 ∷ a1 ∷ a2 ∷ a3 ∷ a4 ∷ a5 ∷ []) = refl
compress_words-feed c v (a0 ∷ a1 ∷ a2 ∷ a3 ∷ a4 ∷ a5 ∷ a6 ∷ []) = refl
compress_words-feed c v (a0 ∷ a1 ∷ a2 ∷ a3 ∷ a4 ∷ a5 ∷ a6 ∷ a7 ∷ msg) =
    compress_words-feed c
      (compress c v (from_le_bytes (a0 ∷ a1 ∷ a2 ∷ a3 ∷ a4 ∷ a5 ∷ a6 ∷ a7 ∷ []))) msg

compress_words-rest : (c : ℕ) (v : Words) (msg : List ℕ) → length ((compress_words c v msg).1) < 8
unfolding compress_words
compress_words-rest c v [] = omega arith
compress_words-rest c v (a0 ∷ []) = omega arith
compress_words-rest c v (a0 ∷ a1 ∷ []) = omega arith
compress_words-rest c v (a0 ∷ a1 ∷ a2 ∷ []) = omega arith
compress_words-rest c v (a0 ∷ a1 ∷ a2 ∷ a3 ∷ []) = omega arith
compress_words-rest c v (a0 ∷ a1 ∷ a2 ∷ a3 ∷ a4 ∷ []) = omega arith
compress_words-rest c v (a0 ∷ a1 ∷ a2 ∷ a3 ∷ a4 ∷ a5 ∷ []) = omega arith
compress_words-rest c v (a0 ∷ a1 ∷ a2 ∷ a3 ∷ a4 ∷ a5 ∷ a6 ∷ []) = omega arith
compress_words-rest c v (a0 ∷ a1 ∷ a2 ∷ a3 ∷ a4 ∷ a5 ∷ a6 ∷ a7 ∷ msg) =
    compress_words-rest c
      (compress c v (from_le_bytes (a0 ∷ a1 ∷ a2 ∷ a3 ∷ a4 ∷ a5 ∷ a6 ∷ a7 ∷ []))) msg

pub take-all : (xs : List ℕ) (n : ℕ) → length xs ≡ n → take n xs ≡ xs
take-all xs n e = ap (λ (t : List ℕ). take n t) (sym (append-nil xs)) ∙ take-append xs [] n e

-- Copied bytes are read back with those before them, and the array keeps its size.
take-copy_at :
    (buf src : List ℕ) (at : ℕ)
    → at ≤ length buf
    → take (at + length src) (copy_at buf at src) ≡ take at buf ++ src
take-copy_at buf src at h = rw (← append_assoc (take at buf) src (drop (at + length src) buf)) (
    take-append (take at buf ++ src) (drop (at + length src) buf) (at + length src)
      (omega (arith, length-append (take at buf) src, length-take at buf)))

length-copy_at :
    (buf src : List ℕ) (at : ℕ)
    → at + length src ≤ length buf
    → length (copy_at buf at src) ≡ length buf
length-copy_at buf src at h = omega (
  arith,
  length-append (take at buf) (src ++ drop (at + length src) buf),
  length-append src (drop (at + length src) buf),
  length-take at buf,
  length-drop (at + length src) buf,
)

module _ (c : ℕ) where
  -- The end of `update`, on a hasher whose buffer is counted as empty.
  update_words-view :
      (h : SipHash) (msg : List ℕ)
      → length h.buf ≡ 8
      → (view (update_words c h msg) ≡ feed c (h.v, []) msg)
        × IsHasher (update_words c h msg)
        × ((update_words c h msg).sum ≡ h.sum)
  unfolding view update_words IsHasher
  update_words-view h msg e =
      let small = compress_words-rest c h.v msg in
      let rest = (compress_words c h.v msg).1 in
      rw (compress_words-feed c h.v msg) (
        ap (λ (t : List ℕ). ((compress_words c h.v msg).0, t))
            (take-append rest (drop (0 + length rest) h.buf) (length rest) refl),
        (length-copy_at h.buf rest 0 (omega arith) ∙ e, small),
        refl,
      )

  -- What `update` is for: the bytes are fed one by one.
  unfoldable pub FedBy : SipHash → List ℕ → SipHash → Type 0
  FedBy h msg h' =
      (view h' ≡ feed c (view h) msg) × IsHasher h' × (h'.sum ≡ (h.sum + length msg % 256) % 256)

  counted : SipHash → List ℕ → SipHash
  counted h msg = record h { sum = (h.sum + length msg % 256) % 256 }

  stored : SipHash → List ℕ → SipHash
  stored h msg = record h {
    sum = (h.sum + length msg % 256) % 256;
    buf = copy_at h.buf h.buflen msg;
    buflen = h.buflen + length msg;
  }

  completed : SipHash → List ℕ → SipHash
  completed h msg =
      let filled = copy_at h.buf h.buflen (take (8 - h.buflen) msg) in
      record h {
        sum = (h.sum + length msg % 256) % 256;
        v = compress c h.v (from_le_bytes filled);
        buf = filled;
        buflen = 0;
      }

  update_empty :
      (h : SipHash) (msg : List ℕ)
      → h.buflen ≡ 0
      → update c h msg ≡ update_words c (counted h msg) msg
  unfolding update counted
  update_empty h msg z = ground arith

  update_wait :
      (h : SipHash) (msg : List ℕ)
      → h.buflen ≢ 0
      → h.buflen + length msg < 8
      → update c h msg ≡ stored h msg
  unfolding update stored
  update_wait h msg z l = ground arith

  update_fill :
      (h : SipHash) (msg : List ℕ)
      → h.buflen ≢ 0
      → 8 ≤ h.buflen + length msg
      → update c h msg ≡ update_words c (completed h msg) (drop (8 - h.buflen) msg)
  unfolding update completed
  update_fill h msg z l = ground arith

  pub view-empty : (h : SipHash) → h.buflen ≡ 0 → view h ≡ (h.v, [])
  unfolding view
  view-empty h z = rw z refl

  empty-FedBy :
      (h : SipHash) (msg : List ℕ) → length h.buf ≡ 8 → h.buflen ≡ 0 → FedBy h msg (update c h msg)
  unfolding FedBy counted
  empty-FedBy h msg e z =
      rw (update_empty h msg z, view-empty h z) (update_words-view (counted h msg) msg e)

  stored-FedBy :
      (h : SipHash) (msg : List ℕ)
      → length h.buf ≡ 8
      → h.buflen + length msg < 8
      → FedBy h msg (stored h msg)
  unfolding FedBy stored view IsHasher
  stored-FedBy h msg e l =
      rw (feed-short c h.v (take h.buflen h.buf) msg (omega (arith, length-take h.buflen h.buf))) (
        ap (λ (t : List ℕ). (h.v, t)) (take-copy_at h.buf msg h.buflen (omega arith)),
        (length-copy_at h.buf msg h.buflen (omega arith) ∙ e, l),
        refl,
      )

  completed-view :
      (h : SipHash) (msg : List ℕ)
      → length h.buf ≡ 8
      → h.buflen < 8
      → 8 ≤ h.buflen + length msg
      → ((completed h msg).v, []) ≡ feed c (view h) (take (8 - h.buflen) msg)
  unfolding completed view
  completed-view h msg e b l =
      let n = 8 - h.buflen in
      let len : length (take n msg) ≡ n = omega (arith, length-take n msg) in
      let whole : length (copy_at h.buf h.buflen (take n msg)) ≡ 8 =
        length-copy_at h.buf (take n msg) h.buflen (omega arith) ∙ e in
      let read = take-copy_at h.buf (take n msg) h.buflen (omega arith) in
      rw
        (feed-fill c h.v (take h.buflen h.buf) (take n msg)
          (omega (arith, length-take h.buflen h.buf)) (omega (arith, length-take h.buflen h.buf)))
        (ap (λ (t : List ℕ). (compress c h.v (from_le_bytes t), []))
          (sym (
              take-all (copy_at h.buf h.buflen (take n msg)) (h.buflen + length (take n msg))
                (omega arith))
            ∙ read))

  completed-FedBy :
      (h : SipHash) (msg : List ℕ)
      → length h.buf ≡ 8
      → h.buflen < 8
      → 8 ≤ h.buflen + length msg
      → FedBy h msg (update_words c (completed h msg) (drop (8 - h.buflen) msg))
  unfolding FedBy completed
  completed-FedBy h msg e b l =
      let (views, good, sums) =
        update_words-view (completed h msg) (drop (8 - h.buflen) msg) filled in
      (
        views
            ∙ ap (λ s. feed c s (drop (8 - h.buflen) msg)) (completed-view h msg e b l)
            ∙ sym (feed-append c (view h) (take (8 - h.buflen) msg) (drop (8 - h.buflen) msg))
            ∙ ap (λ (t : List ℕ). feed c (view h) t) (take-append-drop (8 - h.buflen) msg),
        good,
        sums,
      )
    where
      filled : length (completed h msg).buf ≡ 8
      filled =
          length-copy_at h.buf (take (8 - h.buflen) msg) h.buflen
            (omega (arith, length-take (8 - h.buflen) msg))
          ∙ e

  -- On a well-formed hasher, `update` does what the bytes of the message do one by one, the eighth
  -- of each word compressing it; it adds their number to `sum` modulo 256, and the hasher stays
  -- well formed.
  pub update-feed : (h : SipHash) (msg : List ℕ) → IsHasher h → FedBy h msg (update c h msg)
  unfolding IsHasher
  update-feed h msg (e, b) = elim (ℕ_discrete h.buflen 0) [
    | yes z ↦ empty-FedBy h msg e z
    | no z ↦ elim (dec_lt (h.buflen + length msg) 8) [
      | yes l ↦ rw (update_wait h msg z l) (stored-FedBy h msg e l)
      | no l ↦ rw (update_fill h msg z (omega arith)) (completed-FedBy h msg e b (omega arith))
    ]
  ]
