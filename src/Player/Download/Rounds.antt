-- ===== src/Player/Download/Rounds.antt =====
-- src/player.rs: what an iteration of the download loop keeps in memory.
use link_ear.Prelude.{
  ℕ, ◌-◌, ◌≤◌, ◌<◌, min, max, ◌≡◌, sym, ◌∙◌, inl, inr, true, ◌||◌, List, [], ◌∷◌, arith, Bool-cases,
  ◌==◌, string_eq, nat_eq, bool_eq, option_eq, filter,
}
use link_ear.Prelude.{if_elim}
use link_ear.Prelude.Words.{saturating_add_u64, u64_max}
use link_ear.MediaCache.{ByteRange, contains, IsRange, stream_chunk_bytes}
use link_ear.MediaCache.Index
use link_ear.MediaCache.Index.Normal.{cached}
use link_ear.Player.Stream.{
  ranges_overlap, stream_byte_offset_for_position, stream_byte_range_for_window,
  stream_buffer_target_ms, stream_byte_retain_behind_bytes,
}
use link_ear.Player.Bytes.{
  StreamingByteChunk, StreamingBytesState, append, kept, retain_window, take_requested_offset,
  retain_streaming_byte_window,
}
use link_ear.Player.Bytes.Held.{
  bytes_at, chunks_hold, IsWhole, IsHeld, append-IsHeld, retain_window-IsHeld,
  take_requested_offset-IsHeld,
}
use link_ear.Player.Bytes.Whole.{append-cached}
use link_ear.Player.Download.{settled, target_window, downloaded}

pub offset_for_position-lt :
    (position_ms duration_ms total : ℕ)
    → 0 < total
    → stream_byte_offset_for_position position_ms duration_ms total < total
unfolding stream_byte_offset_for_position
offset_for_position-lt position_ms duration_ms total p = ground arith

-- A window lies in the file.
pub window-IsRange :
    (position_ms window_ms duration_ms total : ℕ)
    → 0 < total
    → total ≤ u64_max
    → let window = stream_byte_range_for_window position_ms window_ms duration_ms total in
      IsRange window × (window.end_inclusive < total)
unfolding stream_byte_range_for_window
window-IsRange position_ms window_ms duration_ms total p u =
    ground (arith, offset_for_position-lt position_ms duration_ms total p)

window-start :
    (position_ms window_ms duration_ms total : ℕ)
    → 0 < total
    → (stream_byte_range_for_window position_ms window_ms duration_ms total).start
      ≡ stream_byte_offset_for_position position_ms duration_ms total
unfolding stream_byte_range_for_window
window-start position_ms window_ms duration_ms total p = ground arith

-- The window that is retained includes the one that is to be filled.
in_window-low :
    (target : ByteRange) (anchor offset behind : ℕ)
    → target.start ≡ anchor
    → contains target offset ≡ true
    → anchor - behind ≤ offset
in_window-low target anchor offset behind e w = ground arith

in_window-high :
    (target : ByteRange) (offset total : ℕ)
    → target.end_inclusive < total
    → total ≤ u64_max
    → contains target offset ≡ true
    → offset ≤ min (saturating_add_u64 target.end_inclusive stream_chunk_bytes) (total - 1)
in_window-high target offset total h u w = ground arith

kept-hold :
    (window : ByteRange) (pinned : List ByteRange) (cs : List StreamingByteChunk) (offset : ℕ)
    → contains window offset ≡ true
    → chunks_hold cs offset ≡ true
    → chunks_hold (filter (kept window pinned) cs) offset ≡ true
unfolding ranges_overlap
kept-hold window pinned [] offset w h = cc
kept-hold window pinned (c ∷ cs) offset w h = ground (arith, kept-hold window pinned cs offset w)

module _ (file : ℕ → ℕ) (total : ℕ) where
  -- A byte in memory that lies in the window stays.
  pub retain_window-cached :
      (s : StreamingBytesState) (start end offset : ℕ)
      → IsHeld file total s
      → start ≤ offset
      → offset ≤ end
      → cached s.ranges offset ≡ true
      → cached (retain_window s start end).ranges offset ≡ true
  unfolding retain_window Index.default
  retain_window-cached s start end offset h low high held =
      let window : ByteRange = record { start = start; end_inclusive = max end start } in
      let after = retain_window-IsHeld file total s start end h in
      after.2 offset
      ∙ kept-hold window s.pinned_ranges s.chunks offset (ground arith) (sym (h.2 offset) ∙ held)

  pub retained-IsHeld :
      (s : StreamingBytesState) (position_ms duration_ms : ℕ)
      → IsHeld file total s
      → IsHeld file total (retain_streaming_byte_window s position_ms duration_ms total)
  unfolding retain_streaming_byte_window
  retained-IsHeld s position_ms duration_ms h =
      let anchor = stream_byte_offset_for_position position_ms duration_ms total in
      let target =
        stream_byte_range_for_window position_ms stream_buffer_target_ms duration_ms total in
      if_elim (IsHeld file total) (total == 0) (λ empty. h)
        λ full.
          retain_window-IsHeld file total s (anchor - stream_byte_retain_behind_bytes)
            (min (saturating_add_u64 target.end_inclusive stream_chunk_bytes) (total - 1)) h

  -- What is in memory of the window that is to be filled stays.
  retained-cached :
      (s : StreamingBytesState) (position_ms duration_ms offset : ℕ)
      → 0 < total
      → total ≤ u64_max
      → IsHeld file total s
      → contains
          (stream_byte_range_for_window position_ms stream_buffer_target_ms duration_ms total)
          offset
        ≡ true
      → cached s.ranges offset ≡ true
      → cached (retain_streaming_byte_window s position_ms duration_ms total).ranges offset ≡ true
  unfolding retain_streaming_byte_window
  retained-cached s position_ms duration_ms offset p u h w held =
      let anchor = stream_byte_offset_for_position position_ms duration_ms total in
      let target =
        stream_byte_range_for_window position_ms stream_buffer_target_ms duration_ms total in
      let in_file = window-IsRange position_ms stream_buffer_target_ms duration_ms total p u in
      let starts = window-start position_ms stream_buffer_target_ms duration_ms total p in
      if_elim (λ (t : StreamingBytesState). cached t.ranges offset ≡ true) (total == 0)
        (λ empty. held)
        λ full.
          retain_window-cached s (anchor - stream_byte_retain_behind_bytes)
            (min (saturating_add_u64 target.end_inclusive stream_chunk_bytes) (total - 1)) offset h
            (in_window-low target anchor offset stream_byte_retain_behind_bytes starts w)
            (in_window-high target offset total in_file.1 u w) held

  pub settled-IsHeld :
      (s : StreamingBytesState) (position_ms duration_ms : ℕ)
      → IsHeld file total s
      → IsHeld file total (settled s position_ms duration_ms total).0
  settled-IsHeld s position_ms duration_ms h =
      let position = min position_ms duration_ms in
      take_requested_offset-IsHeld file total
        (retain_streaming_byte_window s position duration_ms total) total
        (retained-IsHeld s position duration_ms h)

  settled-cached :
      (s : StreamingBytesState) (position_ms duration_ms offset : ℕ)
      → 0 < total
      → total ≤ u64_max
      → IsHeld file total s
      → contains (target_window position_ms duration_ms total) offset ≡ true
      → cached s.ranges offset ≡ true
      → cached (settled s position_ms duration_ms total).0.ranges offset ≡ true
  unfolding take_requested_offset
  settled-cached s position_ms duration_ms offset p u h w held =
      retained-cached s (min position_ms duration_ms) duration_ms offset p u h w held

  pub downloaded-IsHeld :
      (s : StreamingBytesState) (range : ByteRange) (position_ms duration_ms : ℕ)
      → IsHeld file total s
      → IsWhole total range
      → IsHeld file total (downloaded s range (bytes_at file range) position_ms duration_ms total)
  unfolding downloaded
  downloaded-IsHeld s range position_ms duration_ms h w =
      retained-IsHeld (append s (bytes_at file range) range) (min position_ms duration_ms)
        duration_ms (append-IsHeld file total s range h w)

  -- An iteration that fetches a range: of the window that is to be filled, it keeps what is in memory and
  -- adds what the range has.
  pub iteration-cached :
      (s : StreamingBytesState) (range : ByteRange) (position_ms duration_ms offset : ℕ)
      → 0 < total
      → total ≤ u64_max
      → IsHeld file total s
      → IsWhole total range
      → contains (target_window position_ms duration_ms total) offset ≡ true
      → (contains range offset || cached s.ranges offset) ≡ true
      → cached
          (downloaded
            (settled s position_ms duration_ms total).0
            range
            (bytes_at file range)
            position_ms
            duration_ms
            total).ranges
          offset
        ≡ true
  unfolding downloaded
  iteration-cached s range position_ms duration_ms offset p u h w in_window either =
      let t = (settled s position_ms duration_ms total).0 in
      let held = settled-IsHeld s position_ms duration_ms h in
      let appended = append-cached file total t range offset held w in
      retained-cached (append t (bytes_at file range) range) (min position_ms duration_ms)
        duration_ms offset p u (append-IsHeld file total t range held w) in_window
        (elim (Bool-cases (contains range offset)) [
          | inl here ↦ ground arith
          | inr gone ↦
              ground (arith, settled-cached s position_ms duration_ms offset p u h in_window)
        ])
