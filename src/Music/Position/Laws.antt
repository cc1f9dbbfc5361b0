-- ===== src/Music/Position/Laws.antt =====
-- src/music_state.rs: playback positions.
use link_ear.Prelude.{
  ℕ, ◌≤◌, ◌<◌, min, ◌≡◌, refl, ◌↔◌, ◌⊎◌, true, false, some, arith, string_eq, nat_eq, bool_eq,
  option_eq,
}
use link_ear.Prelude.Int.{ℤ, ◌+ℤ◌, ◌-ℤ◌, ◌≤ℤ◌, IsI64, i64_max, saturating_sub, pos_part}
use link_ear.Core.Types.{F32, PlaybackState}
use link_ear.Music.Position.{
  playback_duration_ms, playback_position_ms, playback_should_be_audible,
  normalize_remote_playback_state,
}

module _ (elapsed_ms : ℕ → F32 → ℕ) where
  -- A position never lies past the end of the track; that of a paused state does not depend on the
  -- clock, and is its own position if that lies in the track.
  pub position_in_track :
      (s : PlaybackState) (now : ℤ) (duration : ℕ)
      → playback_duration_ms s ≡ some duration
      → (playback_position_ms elapsed_ms s now ≤ duration)
        × (s.playing ≡ false → playback_position_ms elapsed_ms s now ≡ min s.position_ms duration)
  unfolding playback_position_ms
  position_in_track s now duration h = ground arith

  elapsed_mono :
      (a now later : ℤ)
      → now ≤ℤ later
      → pos_part (saturating_sub now a) ≤ pos_part (saturating_sub later a)
  unfolding saturating_sub
  elapsed_mono a now later h = ground arith

  -- Where more elapsed time never gives less music, the position of a state never falls as the clock
  -- advances, paused or playing.
  pub position_mono :
      (s : PlaybackState) (now later : ℤ)
      → ((a b : ℕ) → a ≤ b → elapsed_ms a s.rate ≤ elapsed_ms b s.rate)
      → now ≤ℤ later
      → playback_position_ms elapsed_ms s now ≤ playback_position_ms elapsed_ms s later
  unfolding playback_position_ms
  position_mono s now later mono h = ground (
    arith,
    mono (pos_part (saturating_sub now s.anchor_time_micros))
        (pos_part (saturating_sub later s.anchor_time_micros))
        (elapsed_mono s.anchor_time_micros now later h),
  )

  -- A state is audible exactly when it plays, its start has come and the track has not ended.
  pub audible_iff :
      (s : PlaybackState) (now : ℤ) (duration : ℕ)
      → playback_duration_ms s ≡ some duration
      → (playback_should_be_audible elapsed_ms s now ≡ true) ↔ (
          (s.playing ≡ true)
          × (s.anchor_time_micros ≤ℤ now)
          × (playback_position_ms elapsed_ms s now < duration))
  unfolding playback_should_be_audible
  audible_iff s now duration h =
      ((λ a. (ground arith, ground arith, ground arith)), (λ a. ground arith))

-- A remote state keeps all but its anchor. The anchor becomes the time of arrival, plus the start delay
-- that the sender announced if the state plays and its anchor lies after its issue; so a state that
-- plays from the past or is paused is anchored at its arrival.
pub normalize_remote-anchor :
    (s : PlaybackState) (received : ℤ)
    → IsI64 received
    → let n = normalize_remote_playback_state s received in
      (n ≡ record s { anchor_time_micros = n.anchor_time_micros })
      × (received ≤ℤ n.anchor_time_micros)
      × (((s.playing ≡ false) ⊎ (s.anchor_time_micros ≤ℤ s.issued_at_micros))
          → n.anchor_time_micros ≡ received)
      × (s.playing ≡ true
          → s.issued_at_micros ≤ℤ s.anchor_time_micros
          → IsI64 (s.anchor_time_micros -ℤ s.issued_at_micros)
          → received +ℤ (s.anchor_time_micros -ℤ s.issued_at_micros) ≤ℤ i64_max
          → n.anchor_time_micros ≡ received +ℤ (s.anchor_time_micros -ℤ s.issued_at_micros))
unfolding normalize_remote_playback_state ◌+ℤ◌ ◌-ℤ◌
normalize_remote-anchor s received r = (refl, ground arith, ground arith, ground arith)
