-- ===== src/Music/Controls/Versions.antt =====
-- src/music_state.rs: the playback states that passed votes produce.
use link_ear.Prelude.{ℕ, ◌≤◌, ◌≡◌, Option, some, arith, string_eq, nat_eq, bool_eq, option_eq}
use link_ear.Prelude.Int.{ℤ}
use link_ear.Prelude.Words.{u64_max}
use link_ear.Core.Types.{F32, PeerId, PlaybackState}
use link_ear.Music.State.{MusicState, playback_state}
use link_ear.Music.Controls.{
  stop_current_playback_for_vote, resume_playback_for_vote, seek_playback_for_vote, seek_playback,
  pause_playback_for_vote,
}

module _ (elapsed_ms : ℕ → F32 → ℕ) where
  -- Two peers that hold the same playback state and execute the same vote, a pause, resume, seek or stop,
  -- get the same playback state, whatever else they hold and whatever versions they have counted: it is
  -- what they answer, and what they then hold.
  pub vote_controls_agree :
      (m n : MusicState) (actor : PeerId) (position_ms : ℕ) (vote_micros : ℤ)
      → playback_state m ≡ playback_state n
      → let pause = λ (k : MusicState). pause_playback_for_vote elapsed_ms k actor vote_micros in
        let resume = λ (k : MusicState). resume_playback_for_vote k actor vote_micros in
        let seek = λ (k : MusicState). seek_playback_for_vote k actor position_ms vote_micros in
        let stop = λ (k : MusicState). stop_current_playback_for_vote k actor vote_micros in
        (((pause m).1 ≡ (pause n).1) × (playback_state (pause m).0 ≡ (pause m).1))
        × (((resume m).1 ≡ (resume n).1) × (playback_state (resume m).0 ≡ (resume m).1))
        × (((seek m).1 ≡ (seek n).1) × (playback_state (seek m).0 ≡ (seek m).1))
        × (((stop m).1 ≡ (stop n).1) × (playback_state (stop m).0 ≡ some (stop m).1))
  unfolding pause_playback_for_vote resume_playback_for_vote seek_playback_for_vote
      stop_current_playback_for_vote playback_state
  vote_controls_agree m n actor position_ms vote_micros h = (
    (ground arith, ground arith),
    (ground arith, ground arith),
    (ground arith, ground arith),
    (ground arith, ground arith),
  )

  -- A pause, resume or seek by a vote, and a local seek, never lowers the playback version, and the state
  -- that it answers carries a version that the counter has reached.
  pub versions_grow :
      (m : MusicState) (actor : PeerId) (position_ms : ℕ) (micros : ℤ) (s : PlaybackState)
      → m.playback_version ≤ u64_max
      → let Grows = λ (k : MusicState × Option PlaybackState).
        (m.playback_version ≤ k.0.playback_version)
        × (k.1 ≡ some s → s.state_version ≤ k.0.playback_version) in
        Grows (pause_playback_for_vote elapsed_ms m actor micros)
        × Grows (resume_playback_for_vote m actor micros)
        × Grows (seek_playback_for_vote m actor position_ms micros)
        × Grows (seek_playback m actor position_ms micros)
  unfolding pause_playback_for_vote resume_playback_for_vote seek_playback_for_vote seek_playback
  versions_grow m actor position_ms micros s u = (
    (ground arith, λ h. ground arith),
    (ground arith, λ h. ground arith),
    (ground arith, λ h. ground arith),
    (ground arith, λ h. ground arith),
  )
