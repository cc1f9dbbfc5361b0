-- ===== src/Player/Stream.antt =====
-- src/player.rs: which bytes of a stream are asked for, and when it is ready.
pub mod Chunks
use link_ear.Prelude.{
  ℕ, ◌-◌, ◌*◌, ◌/◌, ◌%◌, min, max, Bool, not, ◌&&◌, ◌||◌, Option, none, some, List, [], ◌∷◌, ◌++◌,
  ltb, leb, if◌then◌else◌, ◌==◌, string_eq, nat_eq, bool_eq, option_eq, length, any,
}
use link_ear.Prelude.Words.{saturating_add_u64, saturating_mul_u64}
use link_ear.MediaCache
use link_ear.MediaCache.{
  ByteRange, stream_chunk_bytes, ready_window_ms, low_watermark_ms, high_watermark_ms,
}

abbrev pub stream_buffer_target_ms : ℕ
stream_buffer_target_ms = high_watermark_ms * 2

abbrev pub stream_buffer_resume_ms : ℕ
stream_buffer_resume_ms = high_watermark_ms

abbrev pub stream_pcm_retain_behind_ms : ℕ
stream_pcm_retain_behind_ms = low_watermark_ms

abbrev pub stream_pcm_trim_granularity_ms : ℕ
stream_pcm_trim_granularity_ms = 1000

abbrev pub stream_byte_retain_behind_bytes : ℕ
stream_byte_retain_behind_bytes = stream_chunk_bytes * 4

abbrev pub stream_max_pending_offsets : ℕ
stream_max_pending_offsets = 6

abbrev pub stream_small_full_fetch_limit_bytes : ℕ
stream_small_full_fetch_limit_bytes = 8 * 1024 * 1024

unfoldable pub stream_ready_for_position : ℕ → ℕ → ℕ → Bool → Bool
stream_ready_for_position position_ms duration_ms buffered_until_ms complete =
    let position = min position_ms duration_ms in
    let ready_until = min (saturating_add_u64 position ready_window_ms) duration_ms in
    leb ready_until buffered_until_ms || (complete && leb position buffered_until_ms)

unfoldable pub should_emit_stream_cache_event : ℕ → ℕ → Bool → ℕ → Bool
should_emit_stream_cache_event buffered_until_ms last_cache_event_ms ready_sent ready_until_ms =
    leb (saturating_add_u64 last_cache_event_ms 1000) buffered_until_ms
    || (not ready_sent && leb ready_until_ms buffered_until_ms)

unfoldable pub stream_byte_offset_for_position : ℕ → ℕ → ℕ → ℕ
stream_byte_offset_for_position position_ms duration_ms total_bytes =
    if (duration_ms == 0) || (total_bytes == 0)
    then 0
    else min (saturating_mul_u64 (min position_ms duration_ms) total_bytes / duration_ms)
        (total_bytes - 1)

unfoldable pub stream_byte_range_for_window : ℕ → ℕ → ℕ → ℕ → ByteRange
unfolding stream_byte_offset_for_position
stream_byte_range_for_window position_ms window_ms duration_ms total_bytes =
    if total_bytes == 0
    then record { start = 0; end_inclusive = 0 }
    else (let start = stream_byte_offset_for_position position_ms duration_ms total_bytes in
        let end_position_ms = min (saturating_add_u64 position_ms window_ms) duration_ms in
        let end =
          min
            (saturating_add_u64
              (stream_byte_offset_for_position end_position_ms duration_ms total_bytes)
              (256 * 1024))
            (total_bytes - 1) in
        record { start = start; end_inclusive = max end start })

unfoldable pub align_stream_offset : ℕ → ℕ
align_stream_offset offset = offset - offset % stream_chunk_bytes

-- `none` is the error of `ByteRange::new`.
unfoldable pub stream_fetch_range : ℕ → ℕ → Option ByteRange
unfolding align_stream_offset MediaCache.new
stream_fetch_range start total_bytes =
    let aligned = align_stream_offset (min start (total_bytes - 1)) in
    let end = min (saturating_add_u64 aligned stream_chunk_bytes - 1) (total_bytes - 1) in
    MediaCache.new aligned end

unfoldable pub normalized_stream_request_offset : ℕ → Option ℕ → ℕ
unfolding align_stream_offset
normalized_stream_request_offset offset none = align_stream_offset offset
normalized_stream_request_offset offset (some total) = align_stream_offset (min offset (total - 1))

unfoldable pub should_full_fetch_missing_metadata : List ByteRange → ℕ → Bool
should_full_fetch_missing_metadata metadata_ranges total_bytes =
    (length metadata_ranges == 0)
    && (ltb 0 total_bytes && leb total_bytes stream_small_full_fetch_limit_bytes)

abbrev pub same_range : ByteRange → ByteRange → Bool
same_range r s = (r.start == s.start) && (r.end_inclusive == s.end_inclusive)

abbrev pub push_unique_stream_range : List ByteRange → ByteRange → List ByteRange
push_unique_stream_range ranges range =
    if any (same_range range) ranges then ranges else ranges ++ range ∷ []

-- `push_unique_stream_range(&mut ranges, stream_fetch_range(start, total)?)`.
abbrev push_fetch_range : Option (List ByteRange) → ℕ → ℕ → Option (List ByteRange)
push_fetch_range none start total_bytes = none
push_fetch_range (some ranges) start total_bytes = elim (stream_fetch_range start total_bytes) [
  | none ↦ none
  | some range ↦ some (push_unique_stream_range ranges range)
]

unfoldable pub stream_metadata_prefetch_ranges : List ByteRange → ℕ → Option (List ByteRange)
unfolding stream_fetch_range
stream_metadata_prefetch_ranges metadata_ranges total_bytes =
    let first = push_fetch_range (some []) 0 total_bytes in
    let final_chunk_start = align_stream_offset (total_bytes - 1) in
    let before_last =
      if ltb 0 final_chunk_start
      then push_fetch_range first (final_chunk_start - stream_chunk_bytes) total_bytes
      else first in
    if total_bytes == 0
    then some []
    else if not (length metadata_ranges == 0)
    then some metadata_ranges
    else if ltb stream_chunk_bytes total_bytes
    then push_fetch_range before_last final_chunk_start total_bytes
    else first

unfoldable pub ranges_overlap : ByteRange → ByteRange → Bool
ranges_overlap left right = leb left.start right.end_inclusive && leb right.start left.end_inclusive
