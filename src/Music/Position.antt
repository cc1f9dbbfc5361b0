-- ===== src/Music/Position.antt =====
-- src/music_state.rs: where a playback stands at an instant, and when it can be heard. The one
-- floating-point product is a parameter: `elapsed_ms micros rate` is the number of milliseconds of
-- music that `micros / 1000.0 * rate.max(0.0)` comes to, as a u64.
pub mod Laws
use link_ear.Prelude.{
  ℕ, min, Bool, not, ◌&&◌, Option, none, some, ltb, if◌then◌else◌, is_none_or, string_eq, nat_eq,
  bool_eq, option_eq,
}
use link_ear.Prelude.Int.{ℤ, pos, pos_part, leb_ℤ, ltb_ℤ, saturating_sub, saturating_add}
use link_ear.Prelude.Words.{Duration, as_micros, saturating_add_u64}
use link_ear.Core.Types.{F32, PlaybackState}

unfoldable pub playback_duration_ms : PlaybackState → Option ℕ
playback_duration_ms s = elim s.track [ none ↦ none | some track ↦ some track.duration_ms ]

unfoldable pub clamp_playback_position_ms : PlaybackState → ℕ → ℕ
unfolding playback_duration_ms
clamp_playback_position_ms s position_ms = elim (playback_duration_ms s) [
  | none ↦ position_ms
  | some duration ↦ min position_ms duration
]

unfoldable pub can_play_at_position : PlaybackState → ℕ → Bool
unfolding playback_duration_ms
can_play_at_position s position_ms =
    is_none_or (playback_duration_ms s) (λ duration. ltb position_ms duration)

-- `pos_part` is `.max(0)`.
module _ (elapsed_ms : ℕ → F32 → ℕ) where
  unfoldable pub playback_position_ms : PlaybackState → ℤ → ℕ
  unfolding clamp_playback_position_ms saturating_sub
  playback_position_ms s now_micros =
      let elapsed_micros = pos_part (saturating_sub now_micros s.anchor_time_micros) in
      let position_ms =
        if not s.playing
        then s.position_ms
        else saturating_add_u64 s.position_ms (elapsed_ms elapsed_micros s.rate) in
      clamp_playback_position_ms s position_ms

  unfoldable pub playback_should_be_audible : PlaybackState → ℤ → Bool
  unfolding can_play_at_position playback_position_ms
  playback_should_be_audible s now_micros =
      s.playing
      && leb_ℤ s.anchor_time_micros now_micros
      && can_play_at_position s (playback_position_ms s now_micros)

unfoldable pub duration_micros : Duration → ℤ
duration_micros d = pos (min (as_micros d) 9223372036854775807)

unfoldable pub normalize_remote_playback_state : PlaybackState → ℤ → PlaybackState
unfolding saturating_sub saturating_add
normalize_remote_playback_state s received_at_micros =
    let start_delay_micros =
      if s.playing && ltb_ℤ s.issued_at_micros s.anchor_time_micros
      then saturating_sub s.anchor_time_micros s.issued_at_micros
      else pos 0 in
    record s { anchor_time_micros = saturating_add received_at_micros start_delay_micros }
