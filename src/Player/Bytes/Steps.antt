-- ===== src/Player/Bytes/Steps.antt =====
-- src/player.rs: the steps that the threads of a stream make on its SharedBytes.
use link_ear.Prelude.{
  ℕ, String, refl, inl, inr, Bool, true, false, ◌||◌, Option, none, some, List, arith, Bool-cases,
  ◌==◌, string_eq, nat_eq, bool_eq, option_eq, beq_refl,
}
use link_ear.MediaCache.{ByteRange}
use link_ear.MediaCache.Index
use link_ear.Player.Stream.{normalized_stream_request_offset}
use link_ear.Player.Bytes.{
  StreamingByteChunk, StreamingBytesState, new, set_total, append, pin_ranges, retain_window, fail,
  cancel, request_offset, prioritize_offset, take_requested_offset, read_at, looked_up,
  checked_for_error, past_end, find_chunk,
}
use link_ear.Player.Bytes.Held.{
  bytes_at, IsWhole, IsHeld, append-IsHeld, retain_window-IsHeld, queued-IsHeld, requested-IsHeld,
  take_requested_offset-IsHeld,
}

module _ (file : ℕ → ℕ) (total : ℕ) where
  looked_up-IsHeld :
      (s : StreamingBytesState) (offset size : ℕ) (found : Option StreamingByteChunk)
      → IsHeld file total s
      → IsHeld file total (looked_up s offset size found).0
  looked_up-IsHeld s offset size (some c) h = h
  looked_up-IsHeld s offset size none h =
      queued-IsHeld file total s (normalized_stream_request_offset offset s.total_bytes) false h

  checked-IsHeld :
      (s : StreamingBytesState) (offset size : ℕ) (error : Option String)
      → IsHeld file total s
      → IsHeld file total (checked_for_error s offset size error).0
  checked-IsHeld s offset size (some error) h = h
  checked-IsHeld s offset size none h = elim (Bool-cases (past_end s.total_bytes offset)) [
    | inl past ↦ rw past h
    | inr before ↦ rw before (looked_up-IsHeld s offset size (find_chunk s.chunks offset) h)
  ]

  pub read_at-IsHeld :
      (s : StreamingBytesState) (offset size : ℕ) (decoder_canceled : Bool)
      → IsHeld file total s
      → IsHeld file total (read_at s offset size decoder_canceled).0
  unfolding read_at
  read_at-IsHeld s offset size decoder_canceled h = elim (Bool-cases (size == 0)) [
    | inl empty ↦ rw empty h
    | inr some_bytes ↦ elim (Bool-cases (s.canceled || decoder_canceled)) [
      | inl stopped ↦ rw some_bytes (rw stopped h)
      | inr running ↦ rw some_bytes (rw running (checked-IsHeld s offset size s.error h))
    ]
  ]

  -- The steps of the threads that share the state: the download thread's, which gets the file's bytes for
  -- the ranges that it asks for, the decoder's and those of who owns the stream.
  pub data Step : StreamingBytesState → StreamingBytesState → Type 0 where
    totals : {s : StreamingBytesState} → Step s (set_total s (some total))
    appends :
        {s : StreamingBytesState} (range : ByteRange)
        → IsWhole total range
        → Step s (append s (bytes_at file range) range)
    pins : {s : StreamingBytesState} (ranges : List ByteRange) → Step s (pin_ranges s ranges)
    retains : {s : StreamingBytesState} (start end : ℕ) → Step s (retain_window s start end)
    fails : {s : StreamingBytesState} (error : String) → Step s (fail s error)
    cancels : {s : StreamingBytesState} → Step s (cancel s)
    requests : {s : StreamingBytesState} (offset : ℕ) → Step s (request_offset s offset)
    prioritizes : {s : StreamingBytesState} (offset : ℕ) → Step s (prioritize_offset s offset)
    takes : {s : StreamingBytesState} → Step s (take_requested_offset s total).0
    reads :
        {s : StreamingBytesState} (offset size : ℕ) (decoder_canceled : Bool)
        → Step s (read_at s offset size decoder_canceled).0

  pub data Reachable : StreamingBytesState → Type 0 where
    initial : Reachable new
    next : {s t : StreamingBytesState} → Reachable s → Step s t → Reachable t

  Step-IsHeld : {s t : StreamingBytesState} → Step s t → IsHeld file total s → IsHeld file total t
  unfolding set_total pin_ranges fail cancel request_offset prioritize_offset
  Step-IsHeld totals (chunks, normal, same, queue, t) =
      (chunks, normal, same, queue, beq_refl total)
  Step-IsHeld (appends {s} range w) h = append-IsHeld file total s range h w
  Step-IsHeld (pins ranges) h = h
  Step-IsHeld (retains {s} start end) h = retain_window-IsHeld file total s start end h
  Step-IsHeld (fails error) h = h
  Step-IsHeld cancels h = h
  Step-IsHeld (requests {s} offset) h =
      requested-IsHeld file total s (normalized_stream_request_offset offset s.total_bytes) false h
  Step-IsHeld (prioritizes {s} offset) h =
      requested-IsHeld file total s (normalized_stream_request_offset offset s.total_bytes) true h
  Step-IsHeld (takes {s}) h = take_requested_offset-IsHeld file total s total h
  Step-IsHeld (reads {s} offset size decoder_canceled) h =
      read_at-IsHeld s offset size decoder_canceled h

  -- After any steps, the chunks have the file's bytes, the index has exactly the bytes of the chunks, in
  -- order and apart, no more than six offsets are queued, none of them twice, and the length, once it is
  -- set, is the file's.
  pub reachable-IsHeld : {s : StreamingBytesState} → Reachable s → IsHeld file total s
  unfolding new Index.default
  reachable-IsHeld initial = (tt, tt, (λ offset. refl), (tt, omega arith), refl)
  reachable-IsHeld (next r step) = Step-IsHeld step (reachable-IsHeld r)
