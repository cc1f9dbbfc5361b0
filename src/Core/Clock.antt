-- ===== src/Core/Clock.antt =====
-- src/core.rs: timestamps in seconds, milliseconds or microseconds, and durations as text.
pub mod Laws
use link_ear.Prelude.{
  ℕ, ◌/◌, ◌%◌, String, [], ◌∷◌, if◌then◌else◌, string_eq, nat_eq, bool_eq, option_eq,
}
use link_ear.Prelude.Int.{ℤ, pos, ltb_ℤ, saturating_abs, saturating_mul}
use link_ear.Prelude.Text.{display_padded, concat}

abbrev timestamp_seconds_cutoff : ℤ
timestamp_seconds_cutoff = pos 10000000000

abbrev timestamp_millis_cutoff : ℤ
timestamp_millis_cutoff = pos 10000000000000

unfoldable pub normalize_timestamp_micros : ℤ → ℤ
unfolding saturating_mul
normalize_timestamp_micros timestamp =
    let magnitude = saturating_abs timestamp in
    if ltb_ℤ magnitude timestamp_seconds_cutoff
    then saturating_mul timestamp (pos 1000000)
    else if ltb_ℤ magnitude timestamp_millis_cutoff
    then saturating_mul timestamp (pos 1000)
    else timestamp

unfoldable pub format_duration_ms : ℕ → String
unfolding concat display_padded
format_duration_ms duration_ms =
    let total_seconds = duration_ms / 1000 in
    let minutes = total_seconds / 60 in
    let seconds = total_seconds % 60 in
    concat (display_padded minutes ∷ ":" ∷ display_padded seconds ∷ [])
