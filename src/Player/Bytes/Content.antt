-- ===== src/Player/Bytes/Content.antt =====
-- src/player.rs: what a reader of SharedBytes gets.
use link_ear.Prelude.{
  ℕ, zero, suc, ◌+◌, ◌-◌, ◌≤◌, ◌<◌, min, ◌≡◌, refl, ap, ◌∙◌, ◌⊎◌, inl, inr, Bool, true, false, none,
  some, List, [], ◌∷◌, arith, Bool-cases, string_eq, nat_eq, bool_eq, option_eq, length, take, drop,
  All,
}
use native.Mathlib.Numerals.{unary_clauses}
use link_ear.MediaCache.{ByteRange, contains, len}
use link_ear.MediaCache.Index.Normal.{cached}
use link_ear.Player.Bytes.{
  StreamingByteChunk, StreamingBytesState, find_chunk, copied, looked_up, read, waiting, read_at,
}
use link_ear.Player.Bytes.Held.{bytes_from, chunks_hold, IsChunk, IsHeld, length-bytes_from}

drop-bytes_from :
    (file : ℕ → ℕ) (start n k : ℕ)
    → drop k (bytes_from file start n) ≡ bytes_from file (start + k) (n - k)
drop-bytes_from file start n zero = simp unary_clauses refl
drop-bytes_from file start zero (suc k) =
    let none_left : 0 ≡ 0 - suc k = omega arith in ap (bytes_from file (start + suc k)) none_left
drop-bytes_from file start (suc n) (suc k) =
    let at : suc start + k ≡ start + suc k = omega arith in
    let left : n - k ≡ suc n - suc k = omega arith in
    drop-bytes_from file (suc start) n k
    ∙ ap (λ a. bytes_from file a (n - k)) at
    ∙ ap (bytes_from file (start + suc k)) left

take-bytes_from :
    (file : ℕ → ℕ) (start n k : ℕ)
    → take k (bytes_from file start n) ≡ bytes_from file start (min k n)
take-bytes_from file start n zero = simp unary_clauses refl
take-bytes_from file start zero (suc k) = simp unary_clauses refl
take-bytes_from file start (suc n) (suc k) =
    ap (λ r. file start ∷ r) (take-bytes_from file (suc start) n k) ∙ simp unary_clauses refl

-- How many bytes are read from a chunk.
abbrev pub read_count : ByteRange → ℕ → ℕ → ℕ
read_count range offset size = min (range.end_inclusive + 1 - offset) size

-- The first chunk with an offset.
abbrev pub Found : StreamingByteChunk → List StreamingByteChunk → ℕ → Type 0
Found c chunks offset = (contains c.range offset ≡ true) × (chunks_hold chunks offset ≡ true)

module _ (file : ℕ → ℕ) (total : ℕ) where
  copied_lem :
      (c : StreamingByteChunk) (offset size : ℕ)
      → IsChunk file total c
      → contains c.range offset ≡ true
      → copied c offset size ≡ bytes_from file offset (read_count c.range offset size)
  unfolding len
  copied_lem c offset size (w, bytes) h =
      let start = offset - c.range.start in
      let n = len c.range in
      let in_chunk : length c.bytes ≡ n =
        ap length bytes ∙ length-bytes_from file c.range.start n in
      ap (λ b. take (min (length c.bytes - start) size) (drop start b)) bytes
      ∙ ap (take (min (length c.bytes - start) size)) (drop-bytes_from file c.range.start n start)
      ∙ take-bytes_from file (c.range.start + start) (n - start) (min (length c.bytes - start) size)
      ∙ ap (λ a. bytes_from file a (min (min (length c.bytes - start) size) (n - start)))
          (ground arith)
      ∙ ap (bytes_from file offset) (ground arith)

  pub find_chunk_lem :
      (chunks : List StreamingByteChunk) (offset : ℕ)
      → All (IsChunk file total) chunks
      → ((find_chunk chunks offset ≡ none) × (chunks_hold chunks offset ≡ false))
        ⊎ ((c : StreamingByteChunk) × (find_chunk chunks offset ≡ some c)
            × IsChunk file total c
            × Found c chunks offset)
  find_chunk_lem [] offset a = inl (refl, refl)
  find_chunk_lem (c ∷ cs) offset a = elim (Bool-cases (contains c.range offset)) [
    | inl here ↦ inr (c, ground arith, a.0, (here, ground arith))
    | inr gone ↦ elim (find_chunk_lem cs offset a.1) [
      | inl (e, h) ↦ inl (ground arith, ground arith)
      | inr (d, e, v, h) ↦ inr (d, ground arith, v, (h.0, ground arith))
    ]
  ]

  -- A reader is neither canceled nor failed, asks for a byte at least, and is before the end.
  abbrev pub Reads : StreamingBytesState → ℕ → ℕ → Bool → Type 0
  Reads s offset size decoder_canceled =
      (0 < size)
      × (s.canceled ≡ false)
      × (decoder_canceled ≡ false)
      × (s.error ≡ none)
      × (s.total_bytes ≡ some total)
      × (offset < total)

  pub read_at-lookup :
      (s : StreamingBytesState) (offset size : ℕ) (decoder_canceled : Bool)
      → Reads s offset size decoder_canceled
      → read_at s offset size decoder_canceled
        ≡ looked_up s offset size (find_chunk s.chunks offset)
  unfolding read_at
  read_at-lookup s offset size decoder_canceled (p, c, d, e, t, b) =
      rw c (rw d (rw e (rw t (ground arith))))

  -- In a state that holds the file's bytes, a reader that is neither canceled nor failed and asks for a byte
  -- at least, before the end, waits exactly when the byte at its offset is not in
  -- memory; otherwise it gets the bytes of the file from its offset on, at least one and no more than it
  -- asks for, all before the end, and leaves the state as it was.
  pub read_at-content :
      (s : StreamingBytesState) (offset size : ℕ) (decoder_canceled : Bool)
      → IsHeld file total s
      → Reads s offset size decoder_canceled
      → ((cached s.ranges offset ≡ false) × ((read_at s offset size decoder_canceled).1 ≡ waiting))
        ⊎ ((cached s.ranges offset ≡ true)
            × ((count : ℕ) × (read_at s offset size decoder_canceled
                  ≡ (s, read (bytes_from file offset count)))
                × (0 < count)
                × (count ≤ size)
                × (offset + count ≤ total)))
  read_at-content s offset size decoder_canceled (chunks, normal, same, queue, t) r =
      let step = read_at-lookup s offset size decoder_canceled r in
      elim (find_chunk_lem s.chunks offset chunks) [
        | inl (e, h) ↦ inl (same offset ∙ h, ap (λ x. x.1) (step ∙ ap (looked_up s offset size) e))
        | inr (c, e, v, (here, h)) ↦ inr (
          same offset ∙ h,
          (
            read_count c.range offset size,
            step
                ∙ ap (looked_up s offset size) e
                ∙ ap (λ b. (s, read b)) (copied_lem c offset size v here),
            ground (arith, r.0),
            omega arith,
            ground (arith, v.0.1),
          ),
        )
      ]
