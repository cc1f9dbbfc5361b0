-- ===== src/Player/Download.antt =====
-- src/player.rs: download_streaming_bytes, without its requests, which bring the bytes that it appends.
pub mod Rounds
pub mod Progress
use link_ear.Prelude.{
  ℕ, ◌-◌, min, Bool, true, false, ◌&&◌, Option, none, some, List, [], ◌∷◌, if◌then◌else◌, ◌!=◌,
  string_eq, nat_eq, bool_eq, option_eq, length,
}
use link_ear.MediaCache
use link_ear.MediaCache.{ByteRange}
use link_ear.Player.Stream.{
  stream_buffer_target_ms, stream_buffer_resume_ms, stream_byte_range_for_window,
  stream_fetch_range, stream_metadata_prefetch_ranges, should_full_fetch_missing_metadata,
}
use link_ear.Player.Bytes.{
  StreamingBytesState, set_total, append, pin_ranges, request_offset, prioritize_offset,
  take_requested_offset, covers, first_missing_offset, retain_streaming_byte_window,
}

abbrev pub request_all : StreamingBytesState → List ByteRange → StreamingBytesState
request_all s [] = s
request_all s (range ∷ ranges) = request_all (request_offset s range.start) ranges

abbrev prefetched : StreamingBytesState → Option (List ByteRange) → Option StreamingBytesState
prefetched s none = none
prefetched s (some ranges) = some (request_all (pin_ranges s ranges) ranges)

abbrev full_appended : StreamingBytesState → List ℕ → Option ByteRange → Option StreamingBytesState
full_appended s bytes none = none
full_appended s bytes (some full_range) =
    some (append (pin_ranges s (full_range ∷ [])) bytes full_range)

abbrev prioritized : Option StreamingBytesState → ℕ → Option StreamingBytesState
prioritized none offset = none
prioritized (some s) offset = some (prioritize_offset s offset)

-- Before the loop. `full_media` is what a request for the whole file brings; `none` is an error.
unfoldable pub prepare :
    StreamingBytesState → ℕ → List ByteRange → List ℕ → ℕ → ℕ → Option StreamingBytesState
unfolding set_total pin_ranges append request_offset prioritize_offset stream_byte_range_for_window
    should_full_fetch_missing_metadata stream_metadata_prefetch_ranges MediaCache.new
prepare s total metadata_ranges full_media position_ms duration_ms =
    let known = set_total s (some total) in
    let filled =
      if should_full_fetch_missing_metadata metadata_ranges total
      then (if length full_media != total
          then none
          else full_appended known full_media (MediaCache.new 0 (total - 1)))
      else prefetched known (stream_metadata_prefetch_ranges metadata_ranges total) in
    let window =
      stream_byte_range_for_window position_ms stream_buffer_target_ms duration_ms total in
    prioritized filled window.start

-- What an iteration of the loop comes to: it returns, sleeps, starts over, fails or fetches a range.
pub data Next : Type 0 where
  stopped : Next
  idle : Next
  again : Next
  broken : Next
  fetching : (range : ByteRange) → Next

abbrev pub fetch_next : StreamingBytesState → Option ByteRange → Next
fetch_next s none = broken
fetch_next s (some range) = if covers s range then again else fetching range

-- The last offset that is asked for is the file's.
abbrev pub fetch_from : StreamingBytesState → ℕ → ℕ → Next
fetch_from s start total = fetch_next s (stream_fetch_range (min start (total - 1)) total)

abbrev pub fetch_missing : StreamingBytesState → Option ℕ → ℕ → Next
fetch_missing s none total = idle
fetch_missing s (some missing) total = fetch_from s missing total

-- The choice of a start, for the offset that was requested, the target's window and the resume window.
abbrev pub chosen : StreamingBytesState → Option ℕ → Bool → ByteRange → ByteRange → ℕ → Bool × Next
chosen s (some requested) prefetch_paused target resume total =
    (false, fetch_from s requested total)
chosen s none prefetch_paused target resume total =
    if prefetch_paused && covers s resume
    then (prefetch_paused, idle)
    else if covers s target
    then (true, idle)
    else (false, fetch_missing s (first_missing_offset s target) total)

abbrev pub target_window : ℕ → ℕ → ℕ → ByteRange
target_window position_ms duration_ms total =
    stream_byte_range_for_window (min position_ms duration_ms) stream_buffer_target_ms duration_ms
      total

abbrev pub resume_window : ℕ → ℕ → ℕ → ByteRange
resume_window position_ms duration_ms total =
    stream_byte_range_for_window (min position_ms duration_ms) stream_buffer_resume_ms duration_ms
      total

-- The state in which an iteration chooses.
abbrev pub settled : StreamingBytesState → ℕ → ℕ → ℕ → StreamingBytesState × Option ℕ
settled s position_ms duration_ms total =
    take_requested_offset
      (retain_streaming_byte_window s (min position_ms duration_ms) duration_ms total) total

-- An iteration, up to its request.
unfoldable pub download_step :
    StreamingBytesState → Bool → ℕ → ℕ → ℕ → StreamingBytesState × Bool × Next
unfolding retain_streaming_byte_window take_requested_offset covers first_missing_offset
    stream_fetch_range stream_byte_range_for_window
download_step s prefetch_paused position_ms duration_ms total =
    let (t, requested) = settled s position_ms duration_ms total in
    let (paused, next) =
      chosen t requested prefetch_paused (target_window position_ms duration_ms total)
        (resume_window position_ms duration_ms total) total in
    if s.canceled then (s, prefetch_paused, stopped) else (t, paused, next)

-- The rest of an iteration that fetches, with the bytes that the request has brought.
unfoldable pub downloaded :
    StreamingBytesState → ByteRange → List ℕ → ℕ → ℕ → ℕ → StreamingBytesState
unfolding append retain_streaming_byte_window
downloaded s range bytes position_ms duration_ms total =
    retain_streaming_byte_window (append s bytes range) (min position_ms duration_ms) duration_ms
      total
