-- ===== src/Music/Controls.antt =====
-- src/music_state.rs: what a leader and a passed vote do to the playback: stop, pause, resume and seek,
-- each under a new version.
pub mod Versions
use link_ear.Prelude.{
  ℕ, max, true, false, ◌&&◌, Option, none, some, [], ◌∷◌, string_eq, nat_eq, bool_eq, option_eq,
}
use link_ear.Prelude.Int.{ℤ, pos_part}
use link_ear.Prelude.Words.{saturating_add_u64}
use link_ear.Prelude.Text.{display_ℤ, concat}
use link_ear.Core.Types.{F32, one_f32, PeerId, PlaybackState}
use link_ear.Music.State.{MusicState, idle, playback_state, update_phase}
use link_ear.Music.Position.{playback_position_ms, clamp_playback_position_ms, can_play_at_position}

-- The state of a room in which nothing plays.
abbrev stopped : PeerId → ℤ → ℕ → PlaybackState
stopped peer_id now_micros version = record {
  session_id = concat (peer_id ∷ ":" ∷ display_ℤ now_micros ∷ ":idle" ∷ []);
  leader_peer_id = peer_id;
  track = none;
  track_requested_by = none;
  state_version = version;
  issued_at_micros = now_micros;
  playing = false;
  position_ms = 0;
  anchor_time_micros = now_micros;
  rate = one_f32;
}

unfoldable pub stop_current_playback : MusicState → PeerId → ℤ → MusicState × PlaybackState
stop_current_playback m local_peer_id now_micros =
    let version = saturating_add_u64 m.playback_version 1 in
    let state = stopped local_peer_id now_micros version in
    (record m { playback_version = version; playback_phase = idle (some state) }, state)

-- `u64::try_from(vote_micros).unwrap_or(0)`.
unfoldable pub vote_playback_version : MusicState → ℤ → MusicState × ℕ
vote_playback_version m vote_micros =
    let version = pos_part vote_micros in
    (record m { playback_version = max m.playback_version version }, version)

unfoldable pub stop_current_playback_for_vote : MusicState → PeerId → ℤ → MusicState × PlaybackState
unfolding vote_playback_version
stop_current_playback_for_vote m actor_peer_id vote_micros =
    let (m', version) = vote_playback_version m vote_micros in
    let state = stopped actor_peer_id vote_micros version in
    (record m' { playback_phase = idle (some state) }, state)

unfoldable pub update_playback_state_with_version :
    MusicState → ℕ → (PlaybackState → ℕ → PlaybackState) → MusicState × Option PlaybackState
unfolding playback_state
update_playback_state_with_version m version update = elim (playback_state m) [
  | none ↦ (m, none)
  | some s ↦ (
    record m { playback_phase = update_phase (λ t. update t version) m.playback_phase },
    some (update s version),
  )
]

unfoldable pub update_playback_state :
    MusicState → (PlaybackState → ℕ → PlaybackState) → MusicState × Option PlaybackState
unfolding playback_state update_playback_state_with_version
update_playback_state m update = elim (playback_state m) [
  | none ↦ (m, none)
  | some s ↦
      let version = saturating_add_u64 m.playback_version 1 in
      update_playback_state_with_version (record m { playback_version = version }) version update
]

unfoldable pub resume_playback_for_vote :
    MusicState → PeerId → ℤ → MusicState × Option PlaybackState
unfolding vote_playback_version update_playback_state_with_version
resume_playback_for_vote m actor_peer_id vote_micros =
    let (m', version) = vote_playback_version m vote_micros in
    update_playback_state_with_version m' version λ s v. record s {
      state_version = v;
      issued_at_micros = vote_micros;
      playing = true;
      anchor_time_micros = vote_micros;
      leader_peer_id = actor_peer_id;
    }

unfoldable pub seek_playback : MusicState → PeerId → ℕ → ℤ → MusicState × Option PlaybackState
unfolding update_playback_state clamp_playback_position_ms can_play_at_position
seek_playback m local_peer_id position_ms now_micros = update_playback_state m λ s v.
    let target = clamp_playback_position_ms s position_ms in
    record s {
      state_version = v;
      issued_at_micros = now_micros;
      playing = s.playing && can_play_at_position s target;
      position_ms = target;
      anchor_time_micros = now_micros;
      leader_peer_id = local_peer_id;
    }

unfoldable pub seek_playback_for_vote :
    MusicState → PeerId → ℕ → ℤ → MusicState × Option PlaybackState
unfolding vote_playback_version update_playback_state_with_version clamp_playback_position_ms
seek_playback_for_vote m actor_peer_id position_ms vote_micros =
    let (m', version) = vote_playback_version m vote_micros in
    update_playback_state_with_version m' version λ s v. record s {
      state_version = v;
      issued_at_micros = vote_micros;
      position_ms = clamp_playback_position_ms s position_ms;
      anchor_time_micros = vote_micros;
      leader_peer_id = actor_peer_id;
    }

module _ (elapsed_ms : ℕ → F32 → ℕ) where
  unfoldable pub pause_playback_for_vote :
      MusicState → PeerId → ℤ → MusicState × Option PlaybackState
  unfolding vote_playback_version update_playback_state_with_version playback_position_ms
  pause_playback_for_vote m actor_peer_id vote_micros =
      let (m', version) = vote_playback_version m vote_micros in
      update_playback_state_with_version m' version λ s v. record s {
        state_version = v;
        issued_at_micros = vote_micros;
        playing = false;
        position_ms = playback_position_ms elapsed_ms s vote_micros;
        anchor_time_micros = vote_micros;
        leader_peer_id = actor_peer_id;
      }
