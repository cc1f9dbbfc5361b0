-- ===== src/MediaCache/Window.antt =====
-- src/media_cache.rs: the bytes of a track that a position needs.
use link_ear.Prelude.{
  ℕ, ◌+◌, ◌-◌, ◌*◌, ◌/◌, ◌≤◌, ◌<◌, min, max, ◌≡◌, ap, ◌∙◌, ◌↔◌, ◌||◌, Option, none, some, List, [],
  ◌∷◌, arith, leb, if◌then◌else◌, ◌==◌, string_eq, nat_eq, bool_eq, option_eq,
}
use link_ear.Prelude.Words.{saturating_add_u64, saturating_mul_u64, u64_max}
use link_ear.Core.Types.{PlaybackTrack, PlaybackByteRange}
use link_ear.MediaCache.{ByteRange, from_playback, IsRange, high_watermark_ms}

unfoldable pub range_for_window : ℕ → ℕ → ℕ → ByteRange
range_for_window position_ms duration_ms total_bytes =
    if (duration_ms == 0) || (total_bytes == 0)
    then record { start = 0; end_inclusive = 0 }
    else (let start =
          min (saturating_mul_u64 position_ms total_bytes / duration_ms) (total_bytes - 1) in
        let window_end_ms = min (saturating_add_u64 position_ms high_watermark_ms) duration_ms in
        let end =
          min
            (saturating_add_u64 (saturating_mul_u64 window_end_ms total_bytes / duration_ms)
              (256 * 1024))
            (total_bytes - 1) in
        record { start = start; end_inclusive = max end start })

unfoldable pub clamp_track_range : ByteRange → ℕ → Option ByteRange
clamp_track_range range total_bytes =
    if (total_bytes == 0) || leb total_bytes range.start
    then none
    else (let clamped = record range {
      end_inclusive = min range.end_inclusive (total_bytes - 1);
    } in
        if leb clamped.start clamped.end_inclusive then some clamped else none)

-- `flatten`, `filter_map` and `collect` over the two ranges.
abbrev clamped_ranges : List (Option PlaybackByteRange) → ℕ → List ByteRange
clamped_ranges [] total_bytes = []
clamped_ranges (none ∷ rs) total_bytes = clamped_ranges rs total_bytes
clamped_ranges (some r ∷ rs) total_bytes =
    let rest = clamped_ranges rs total_bytes in
    elim (clamp_track_range (from_playback r) total_bytes) [ none ↦ rest | some c ↦ c ∷ rest ]

unfoldable pub metadata_ranges : PlaybackTrack → ℕ → List ByteRange
unfolding clamp_track_range
metadata_ranges track total_bytes =
    clamped_ranges (track.media_init_range ∷ track.media_index_range ∷ []) total_bytes

-- The window's end stays below the track's, so that its product does not saturate.
window_end_lem :
    (position duration total : ℕ)
    → 0 < duration
    → 0 < total
    → total ≤ u64_max
    → duration * total ≤ u64_max
    → min ((min (position + high_watermark_ms) duration) * total / duration) (total - 1)
      ≤ (range_for_window position duration total).end_inclusive
unfolding range_for_window
window_end_lem position duration total d t u h =
    let window = min (position + high_watermark_ms) duration in
    let small : duration ≤ u64_max = grind arith in
    let same : min (min (position + high_watermark_ms) u64_max) duration ≡ window = omega arith in
    let product : window * total ≤ duration * total = grind arith in
    let unsaturated : min (window * total) u64_max ≡ window * total = omega arith in
    let share =
      ap (λ w. saturating_mul_u64 w total / duration) same ∙ ap (λ n. n / duration) unsaturated in
    ground (arith, share)

-- The window of a position lies in the file: it is a range that is not empty and ends before the file does.
-- It holds the byte at the position's share of the file, and if the product of the last millisecond and the file's
-- size is a u64, also the byte at the share of the window's end.
pub range_for_window_lem :
    (position duration total : ℕ)
    → 0 < duration
    → 0 < total
    → total ≤ u64_max
    → let w = range_for_window position duration total in
      IsRange w
      × (w.end_inclusive < total)
      × (position * total ≤ u64_max → w.start ≡ min (position * total / duration) (total - 1))
      × (duration * total ≤ u64_max
          → min ((min (position + high_watermark_ms) duration) * total / duration) (total - 1)
            ≤ w.end_inclusive)
unfolding range_for_window
range_for_window_lem position duration total d t u = (
  ground arith,
  ground arith,
  (λ h. ground arith),
  (λ h. window_end_lem position duration total d t u h),
)

-- A clamped range is a range within the file that starts where the given one does and holds each of its bytes that the
-- file has; there is none exactly where the file has no byte of the range.
pub clamp_track_range_lem :
    (range : ByteRange) (total : ℕ)
    → total ≤ u64_max
    → ((clamp_track_range range total ≡ none)
        ↔ ((offset : ℕ) → range.start ≤ offset → offset ≤ range.end_inclusive → total ≤ offset))
      × ((c : ByteRange)
          → clamp_track_range range total ≡ some c
          → IsRange c × (c ≡ record range { end_inclusive = min range.end_inclusive (total - 1) }))
unfolding clamp_track_range
clamp_track_range_lem range total u =
    (((λ h offset a b. ground arith), (λ h. ground (arith, h range.start))), (λ c h. ground arith))
