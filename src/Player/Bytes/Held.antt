-- ===== src/Player/Bytes/Held.antt =====
-- src/player.rs: what SharedBytes holds, over all steps that the threads of a stream make on it.
use link_ear.Prelude.{
  ℕ, zero, suc, ◌<◌, max, ◌≡◌, refl, inl, inr, Bool, true, not, ◌&&◌, ◌||◌, List, [], ◌∷◌, ◌++◌,
  arith, ltb, Bool-cases, is_none_or, ◌==◌, string_eq, nat_eq, bool_eq, option_eq, length, any,
  filter, All,
}
use link_ear.MediaCache.{ByteRange, contains, IsRange, len}
use link_ear.MediaCache.Index
use link_ear.MediaCache.Index.{RangeIndex}
use link_ear.MediaCache.Index.Normal.{cached, IsNormal, insert-IsNormal, cached-insert}
use link_ear.Player.Stream.{align_stream_offset}
use link_ear.Player.Bytes.{
  StreamingByteChunk, StreamingBytesState, new, insert_chunk, sort_chunks, append, index_of, kept,
  retain_window, take_requested_offset, stored, requested, queue_requested_offset,
}
use link_ear.Player.Bytes.Queue.{
  IsQueue, filter-Distinct, length-filter-le, queue_requested_offset-IsQueue, take_from_lem,
}

-- The bytes of a file from an offset on.
abbrev pub bytes_from : (ℕ → ℕ) → ℕ → ℕ → List ℕ
bytes_from file start zero = []
bytes_from file start (suc n) = file start ∷ bytes_from file (suc start) n

abbrev pub bytes_at : (ℕ → ℕ) → ByteRange → List ℕ
bytes_at file range = bytes_from file range.start (len range)

pub length-bytes_from : (file : ℕ → ℕ) (start n : ℕ) → length (bytes_from file start n) ≡ n
length-bytes_from file start zero = refl
length-bytes_from file start (suc n) = omega (arith, length-bytes_from file (suc start) n)

-- A chunk has a byte.
abbrev pub chunks_hold : List StreamingByteChunk → ℕ → Bool
chunks_hold chunks offset = any (λ (c : StreamingByteChunk). contains c.range offset) chunks

-- With an offset, the range has all offsets of the file that are aligned as it is.
abbrev pub IsWhole : ℕ → ByteRange → Type 0
IsWhole total range =
    IsRange range
    × (range.end_inclusive < total)
    × ((a b : ℕ)
        → contains range a ≡ true
        → b < total
        → align_stream_offset b ≡ align_stream_offset a
        → contains range b ≡ true)

module _ (file : ℕ → ℕ) (total : ℕ) where
  -- A chunk has the file's bytes at its range.
  abbrev pub IsChunk : StreamingByteChunk → Type 0
  IsChunk c = IsWhole total c.range × (c.bytes ≡ bytes_at file c.range)

  -- The index has the bytes of the chunks, which are the file's, and the queue is one.
  abbrev pub IsHeld : StreamingBytesState → Type 0
  IsHeld s =
      All IsChunk s.chunks
      × IsNormal s.ranges
      × ((offset : ℕ) → cached s.ranges offset ≡ chunks_hold s.chunks offset)
      × IsQueue s.requested_offsets
      × is_none_or s.total_bytes (λ t. t == total) ≡ true

  insert_chunk-All :
      (c : StreamingByteChunk) (cs : List StreamingByteChunk)
      → IsChunk c
      → All IsChunk cs
      → All IsChunk (insert_chunk c cs)
  insert_chunk-All c [] v a = (v, tt)
  insert_chunk-All c (x ∷ xs) v a = elim (Bool-cases (ltb x.range.start c.range.start)) [
    | inl after ↦ rw after (a.0, insert_chunk-All c xs v a.1)
    | inr before ↦ rw before (v, a)
  ]

  sort_chunks-All : (cs : List StreamingByteChunk) → All IsChunk cs → All IsChunk (sort_chunks cs)
  sort_chunks-All [] a = tt
  sort_chunks-All (c ∷ cs) a = insert_chunk-All c (sort_chunks cs) a.0 (sort_chunks-All cs a.1)

  push-All :
      (cs : List StreamingByteChunk) (c : StreamingByteChunk)
      → All IsChunk cs
      → IsChunk c
      → All IsChunk (cs ++ c ∷ [])
  push-All [] c a v = (v, tt)
  push-All (x ∷ xs) c a v = (a.0, push-All xs c a.1 v)

  filter-All :
      (p : StreamingByteChunk → Bool) (cs : List StreamingByteChunk)
      → All IsChunk cs
      → All IsChunk (filter p cs)
  filter-All p [] a = tt
  filter-All p (c ∷ cs) a = elim (Bool-cases (p c)) [
    | inl keep ↦ rw keep (a.0, filter-All p cs a.1)
    | inr gone ↦ rw gone (filter-All p cs a.1)
  ]

  index_of-cached :
      (index : RangeIndex) (cs : List StreamingByteChunk)
      → IsNormal index
      → All IsChunk cs
      → IsNormal (index_of index cs)
        × ((offset : ℕ)
            → cached (index_of index cs) offset ≡ (chunks_hold cs offset || cached index offset))
  index_of-cached index [] n a = (n, (λ offset. refl))
  index_of-cached index (c ∷ cs) n a =
      let valid = a.0.0.0 in
      let (normal, bytes) =
        index_of-cached (Index.insert index c.range) cs (insert-IsNormal index c.range n valid)
          a.1 in
      (normal, (λ offset. ground (arith, bytes offset, cached-insert index c.range offset n valid)))

insert_chunk-hold :
    (c : StreamingByteChunk) (cs : List StreamingByteChunk) (offset : ℕ)
    → chunks_hold (insert_chunk c cs) offset ≡ (contains c.range offset || chunks_hold cs offset)
insert_chunk-hold c [] offset = refl
insert_chunk-hold c (x ∷ xs) offset = ground (arith, insert_chunk-hold c xs offset)

sort_chunks-hold :
    (cs : List StreamingByteChunk) (offset : ℕ)
    → chunks_hold (sort_chunks cs) offset ≡ chunks_hold cs offset
sort_chunks-hold [] offset = refl
sort_chunks-hold (c ∷ cs) offset =
    ground (arith, insert_chunk-hold c (sort_chunks cs) offset, sort_chunks-hold cs offset)

push-hold :
    (cs : List StreamingByteChunk) (c : StreamingByteChunk) (offset : ℕ)
    → chunks_hold (cs ++ c ∷ []) offset ≡ (contains c.range offset || chunks_hold cs offset)
push-hold [] c offset = refl
push-hold (x ∷ xs) c offset = ground (arith, push-hold xs c offset)

module _ (file : ℕ → ℕ) (total : ℕ) where
  stored-IsHeld :
      (s : StreamingBytesState) (range : ByteRange)
      → IsHeld file total s
      → IsWhole total range
      → IsHeld file total (stored s (bytes_at file range) range)
  stored-IsHeld s range (chunks, normal, same, queue, t) w =
      let c : StreamingByteChunk = record { range = range; bytes = bytes_at file range } in
      elim (Bool-cases
        (not (length (bytes_at file range) == 0) && not (Index.covers s.ranges range))) [
          | inl new ↦ rw new (
            sort_chunks-All file total (s.chunks ++ c ∷ [])
                (push-All file total s.chunks c chunks (w, refl)),
            insert-IsNormal s.ranges range normal w.0,
            (λ offset. ground (
              arith,
              cached-insert s.ranges range offset normal w.0,
              sort_chunks-hold (s.chunks ++ c ∷ []) offset,
              push-hold s.chunks c offset,
              same offset,
            )),
            queue,
            t,
          )
          | inr held ↦ rw held (chunks, normal, same, queue, t)
        ]

  pub append-IsHeld :
      (s : StreamingBytesState) (range : ByteRange)
      → IsHeld file total s
      → IsWhole total range
      → IsHeld file total (append s (bytes_at file range) range)
  unfolding append
  append-IsHeld s range h w =
      let (chunks, normal, same, queue, t) = stored-IsHeld s range h w in
      let after = stored s (bytes_at file range) range in
      let p = λ (offset : ℕ). not (cached after.ranges offset) in
      (
        chunks,
        normal,
        same,
        (
          filter-Distinct p after.requested_offsets queue.0,
          omega (arith, length-filter-le p after.requested_offsets),
        ),
        t,
      )

  pub retain_window-IsHeld :
      (s : StreamingBytesState) (start end : ℕ)
      → IsHeld file total s
      → IsHeld file total (retain_window s start end)
  unfolding retain_window Index.default
  retain_window-IsHeld s start end (chunks, normal, same, queue, t) =
      let window : ByteRange = record { start = start; end_inclusive = max end start } in
      let left = filter-All file total (kept window s.pinned_ranges) s.chunks chunks in
      let (index, bytes) =
        index_of-cached file total Index.default (filter (kept window s.pinned_ranges) s.chunks) tt
          left in
      (left, index, (λ offset. ground (arith, bytes offset)), queue, t)

  pub queued-IsHeld :
      (s : StreamingBytesState) (offset : ℕ) (priority : Bool)
      → IsHeld file total s
      → IsHeld file total (record s {
        requested_offsets = queue_requested_offset s.requested_offsets offset priority;
      })
  queued-IsHeld s offset priority (chunks, normal, same, queue, t) = (
    chunks,
    normal,
    same,
    queue_requested_offset-IsQueue s.requested_offsets offset priority queue,
    t,
  )

  pub requested-IsHeld :
      (s : StreamingBytesState) (offset : ℕ) (priority : Bool)
      → IsHeld file total s
      → IsHeld file total (requested s offset priority)
  requested-IsHeld s offset priority h = elim (Bool-cases (not (cached s.ranges offset))) [
    | inl absent ↦ rw absent (queued-IsHeld s offset priority h)
    | inr present ↦ rw present h
  ]

  pub take_requested_offset-IsHeld :
      (s : StreamingBytesState) (limit : ℕ)
      → IsHeld file total s
      → IsHeld file total (take_requested_offset s limit).0
  unfolding take_requested_offset
  take_requested_offset-IsHeld s limit (chunks, normal, same, queue, t) =
      (chunks, normal, same, (take_from_lem s.ranges limit s.requested_offsets queue).0, t)
