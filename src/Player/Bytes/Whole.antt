-- ===== src/Player/Bytes/Whole.antt =====
-- src/player.rs: the bytes in memory are whole chunks of the file.
use link_ear.Prelude.{
  ℕ, ◌≤◌, ◌<◌, ◌≡◌, sym, ◌∙◌, inl, inr, true, ◌||◌, List, [], ◌∷◌, arith, Bool-cases, string_eq,
  nat_eq, bool_eq, option_eq, All,
}
use link_ear.Prelude.Words.{u64_max}
use link_ear.MediaCache.{ByteRange, contains, len}
use link_ear.MediaCache.Index
use link_ear.MediaCache.Index.Normal.{cached, cached-insert}
use link_ear.MediaCache.Index.Bytes.{covers_iff}
use link_ear.Player.Stream.{align_stream_offset}
use link_ear.Player.Stream.Chunks.{chunk_of, chunk_of-contains, chunk_of-IsRange}
use link_ear.Player.Bytes.{StreamingByteChunk, StreamingBytesState, append}
use link_ear.Player.Bytes.Held.{bytes_at, length-bytes_from, chunks_hold, IsWhole, IsChunk, IsHeld}

pub chunk_of-IsWhole :
    (offset total : ℕ) → offset < total → total ≤ u64_max → IsWhole total (chunk_of offset total)
unfolding align_stream_offset
chunk_of-IsWhole offset total h u = (
  chunk_of-IsRange offset total h u,
  omega arith,
  (λ a b in_a before aligned.
      let to = (chunk_of-contains offset a total h).0 in
      (chunk_of-contains offset b total h).1 (before, aligned ∙ (to in_a).1)),
)

module _ (file : ℕ → ℕ) (total : ℕ) where
  chunks-whole :
      (cs : List StreamingByteChunk) (a b : ℕ)
      → All (IsChunk file total) cs
      → chunks_hold cs a ≡ true
      → b < total
      → align_stream_offset b ≡ align_stream_offset a
      → chunks_hold cs b ≡ true
  chunks-whole [] a b v h before aligned = cc
  chunks-whole (c ∷ cs) a b v h before aligned = elim (Bool-cases (contains c.range a)) [
    | inl here ↦ ground (arith, v.0.0.2 a b here before aligned)
    | inr gone ↦ ground (arith, chunks-whole cs a b v.1 (ground arith) before aligned)
  ]

  -- The bytes in memory are whole chunks of the file.
  pub cached-whole :
      (s : StreamingBytesState) (a b : ℕ)
      → IsHeld file total s
      → cached s.ranges a ≡ true
      → b < total
      → align_stream_offset b ≡ align_stream_offset a
      → cached s.ranges b ≡ true
  cached-whole s a b (chunks, normal, same, queue, t) h before aligned =
      same b ∙ chunks-whole s.chunks a b chunks (sym (same a) ∙ h) before aligned

  -- What is appended is held.
  pub append-cached :
      (s : StreamingBytesState) (range : ByteRange) (offset : ℕ)
      → IsHeld file total s
      → IsWhole total range
      → cached (append s (bytes_at file range) range).ranges offset
        ≡ (contains range offset || cached s.ranges offset)
  unfolding append len
  append-cached s range offset (chunks, normal, same, queue, t) w =
      elim (Bool-cases (Index.covers s.ranges range)) [
        | inl held ↦ ground (arith, (covers_iff s.ranges range normal w.0).0 held offset)
        | inr absent ↦ ground (
          arith,
          length-bytes_from file range.start (len range),
          cached-insert s.ranges range offset normal w.0,
        )
      ]
