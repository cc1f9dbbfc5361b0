-- ===== src/Player/Bytes/Served.antt =====
-- src/player.rs: a reader that waits is served by the download thread.
use link_ear.Prelude.{
  ℕ, ◌≤◌, ◌<◌, ◌≡◌, refl, sym, ap, ◌∙◌, inl, inr, true, false, not, ◌&&◌, some, List, arith,
  Bool-cases, Option-cases, ◌==◌, string_eq, nat_eq, bool_eq, option_eq, length,
}
use mathlib.Core.Path.{subst}
use link_ear.Prelude.HashSet
use link_ear.Prelude.Words.{u64_max}
use link_ear.MediaCache.{ByteRange}
use link_ear.MediaCache.Index
use link_ear.MediaCache.Index.Normal.{cached}
use link_ear.Player.Stream.{align_stream_offset, normalized_stream_request_offset}
use link_ear.Player.Stream.Chunks.{chunk_of, chunk_of-contains}
use link_ear.Player.Bytes.{
  StreamingBytesState, append, take_requested_offset, take_from, read, read_at,
  queue_requested_offset,
}
use link_ear.Player.Bytes.Queue.{IsFull, queue_requested_offset-plain, take_from_lem}
use link_ear.Player.Bytes.Held.{bytes_from, bytes_at, IsHeld, append-IsHeld, queued-IsHeld}
use link_ear.Player.Bytes.Content.{Reads, find_chunk_lem, read_at-lookup, read_at-content}
use link_ear.Player.Bytes.Whole.{chunk_of-IsWhole, cached-whole, append-cached}

module _ (file : ℕ → ℕ) (total : ℕ) where
  after_wait :
      (s : StreamingBytesState) (offset size : ℕ)
      → IsHeld file total s
      → Reads file total s offset size false
      → cached s.ranges offset ≡ false
      → (read_at s offset size false).0 ≡ record s {
        requested_offsets =
            queue_requested_offset s.requested_offsets
              (normalized_stream_request_offset offset (some total))
              false;
      }
  unfolding queue_requested_offset
  after_wait s offset size (chunks, normal, same, queue, t) r h =
      let step = ap (λ x. x.0) (read_at-lookup file total s offset size false r) in
      elim (find_chunk_lem file total s.chunks offset chunks) [
        | inl (e, none_held) ↦
            step
            ∙ rw e (
                ap
                  (λ t. record s {
                    requested_offsets =
                        queue_requested_offset s.requested_offsets
                          (normalized_stream_request_offset offset t) false;
                  })
                  r.4)
        | inr (c, e, v, (here, held)) ↦ absurd (cc (same offset))
      ]

  -- The offset that the download thread takes from a queue in which an offset waits that is not held.
  takes_some :
      (s : StreamingBytesState) (queued : ℕ)
      → IsHeld file total s
      → HashSet.contains s.requested_offsets queued ≡ true
      → cached s.ranges (normalized_stream_request_offset queued (some total)) ≡ false
      → (wanted : ℕ) × ((take_requested_offset s total).1 ≡ some wanted)
        × (cached s.ranges wanted ≡ false)
  unfolding take_requested_offset
  takes_some s queued (chunks, normal, same, queue, t) waits absent =
      let (kept, taken, empty) = take_from_lem s.ranges total s.requested_offsets queue in
      elim (Option-cases (take_from s.ranges total s.requested_offsets).1) [
        | inl e ↦ absurd (cc (empty e queued waits))
        | inr (wanted, e) ↦ (wanted, e, taken wanted e)
      ]

  append-Reads :
      (s : StreamingBytesState) (bytes : List ℕ) (range : ByteRange) (offset size : ℕ)
      → Reads file total s offset size false
      → Reads file total (append s bytes range) offset size false
  unfolding append
  append-Reads s bytes range offset size r =
      elim (Bool-cases (not (length bytes == 0) && not (Index.covers s.ranges range))) [
        | inl new ↦ rw new r
        | inr held ↦ rw held r
      ]

  -- The state after the download thread has appended the chunk of an offset.
  abbrev pub served : StreamingBytesState → ℕ → StreamingBytesState
  served s offset = append s (bytes_at file (chunk_of offset total)) (chunk_of offset total)

  append-read :
      (s : StreamingBytesState) (offset size : ℕ)
      → total ≤ u64_max
      → IsHeld file total s
      → Reads file total s offset size false
      → (count : ℕ) × ((read_at (served s offset) offset size false).1
          ≡ read (bytes_from file offset count))
        × (0 < count)
  append-read s offset size u h r =
      let chunk = chunk_of offset total in
      let whole = chunk_of-IsWhole offset total r.5 u in
      let here = (chunk_of-contains offset offset total r.5).1 (r.5, refl) in
      let after = append-IsHeld file total s chunk h whole in
      elim (read_at-content file total (served s offset) offset size false after
        (append-Reads s (bytes_at file chunk) chunk offset size r)) [
          | inl (absent, e) ↦
              absurd (ground (arith, append-cached file total s chunk offset h whole))
          | inr (held, (count, e, positive, most, within)) ↦ (count, ap (λ x. x.1) e, positive)
        ]

  abbrev pub IsServed : ℕ → ℕ → StreamingBytesState → Type 0
  IsServed offset size s =
      (HashSet.contains s.requested_offsets (align_stream_offset offset) ≡ true)
      × ((wanted : ℕ) × ((take_requested_offset s total).1 ≡ some wanted)
          × (cached s.ranges wanted ≡ false))
      × ((count : ℕ) × ((read_at (served s offset) offset size false).1
            ≡ read (bytes_from file offset count))
          × (0 < count))

  normalized_aligned :
      (offset : ℕ)
      → offset < total
      → normalized_stream_request_offset (align_stream_offset offset) (some total)
        ≡ align_stream_offset offset
  unfolding normalized_stream_request_offset align_stream_offset
  normalized_aligned offset h = omega arith

  normalized_before :
      (offset : ℕ)
      → offset < total
      → normalized_stream_request_offset offset (some total) ≡ align_stream_offset offset
  unfolding normalized_stream_request_offset align_stream_offset
  normalized_before offset h = omega arith

  align_aligned :
      (offset : ℕ) → align_stream_offset offset ≡ align_stream_offset (align_stream_offset offset)
  unfolding align_stream_offset
  align_aligned offset = omega arith

  -- The offset of a reader's chunk is not in memory when the reader's is not.
  aligned_absent :
      (s : StreamingBytesState) (offset : ℕ)
      → IsHeld file total s
      → offset < total
      → cached s.ranges offset ≡ false
      → cached s.ranges (align_stream_offset offset) ≡ false
  aligned_absent s offset h before absent =
      elim (Bool-cases (cached s.ranges (align_stream_offset offset))) [
        | inl held ↦ absurd (
            cc (
              cached-whole file total s (align_stream_offset offset) offset h held before
                (align_aligned offset)))
        | inr e ↦ e
      ]

  queued-IsServed :
      (s : StreamingBytesState) (offset size : ℕ)
      → total ≤ u64_max
      → IsHeld file total s
      → Reads file total s offset size false
      → cached s.ranges offset ≡ false
      → ¬ IsFull s.requested_offsets (align_stream_offset offset)
      → IsServed offset size (record s {
        requested_offsets =
            queue_requested_offset s.requested_offsets (align_stream_offset offset) false;
      })
  queued-IsServed s offset size u h r absent room =
      let t = record s {
        requested_offsets =
            queue_requested_offset s.requested_offsets (align_stream_offset offset) false;
      } in
      let held = queued-IsHeld file total s (align_stream_offset offset) false h in
      let missing = aligned_absent s offset h r.5 absent in
      elim (queue_requested_offset-plain s.requested_offsets (align_stream_offset offset) h.3) [
        | inl queued ↦ (
          queued,
          takes_some t (align_stream_offset offset) held queued
              (ap (cached s.ranges) (normalized_aligned offset r.5) ∙ missing),
          append-read t offset size u held r,
        )
        | inr full ↦ absurd (room full)
      ]

  -- In a state that holds the file's bytes, a reader that is neither canceled nor failed waits for a byte
  -- before the end, and its chunk is queued already or fewer than six offsets are. Then the chunk is queued, the download thread takes an offset that is not in memory, and once the chunk
  -- of the reader's offset is appended, the reader gets bytes of the file.
  pub waiting-IsServed :
      (s : StreamingBytesState) (offset size : ℕ)
      → total ≤ u64_max
      → IsHeld file total s
      → Reads file total s offset size false
      → cached s.ranges offset ≡ false
      → ¬ IsFull s.requested_offsets (align_stream_offset offset)
      → IsServed offset size (read_at s offset size false).0
  waiting-IsServed s offset size u h r absent room =
      let aligned =
        ap
          (λ a. record s { requested_offsets = queue_requested_offset s.requested_offsets a false })
          (normalized_before offset r.5) in
      subst (IsServed offset size) (sym (after_wait s offset size h r absent ∙ aligned))
        (queued-IsServed s offset size u h r absent room)
