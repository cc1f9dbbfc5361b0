-- ===== src/MediaCache.antt =====
-- src/media_cache.rs: the byte ranges of a track's media.
pub mod Index
pub mod Window
pub mod Headers
pub mod Fetch
pub mod Evict
mod Tests
use link_ear.Prelude.{
  ℕ, ◌+◌, ◌-◌, ◌*◌, ◌≤◌, String, Bool, ◌&&◌, Option, none, some, [], ◌∷◌, ltb, leb, if◌then◌else◌,
  string_eq, nat_eq, bool_eq, option_eq,
}
use link_ear.Prelude.Words.{u64_max}
use link_ear.Prelude.Text.{display, concat}
use link_ear.Core.Types.{PlaybackByteRange}

abbrev pub ready_window_ms : ℕ
ready_window_ms = 12000

abbrev pub low_watermark_ms : ℕ
low_watermark_ms = 5000

abbrev pub high_watermark_ms : ℕ
high_watermark_ms = 15000

abbrev pub max_cache_bytes : ℕ
max_cache_bytes = 2 * 1024 * 1024 * 1024

abbrev pub stream_chunk_bytes : ℕ
stream_chunk_bytes = 2 * 1024 * 1024

pub record ByteRange : Type 0 where
  pub start : ℕ
  pub end_inclusive : ℕ

-- `none` is the error "invalid byte range".
unfoldable pub new : ℕ → ℕ → Option ByteRange
new start end_inclusive =
    if ltb end_inclusive start
    then none
    else some (record { start = start; end_inclusive = end_inclusive })

-- The addition does not saturate; it overflows only for the range of all u64.
unfoldable pub len : ByteRange → ℕ
len r = r.end_inclusive - r.start + 1

abbrev pub contains : ByteRange → ℕ → Bool
contains r offset = leb r.start offset && leb offset r.end_inclusive

unfoldable pub header_value : ByteRange → String
unfolding display concat
header_value r = concat ("bytes=" ∷ display r.start ∷ "-" ∷ display r.end_inclusive ∷ [])

abbrev pub from_playback : PlaybackByteRange → ByteRange
from_playback r = record { start = r.start; end_inclusive = r.end_inclusive }

-- A range is not empty and ends at a u64.
abbrev pub IsRange : ByteRange → Type 0
IsRange r = (r.start ≤ r.end_inclusive) × (r.end_inclusive ≤ u64_max)
