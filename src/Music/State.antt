-- ===== src/Music/State.antt =====
-- src/music_state.rs: the state of a room's music, and what it answers about itself.
use link_ear.Prelude.{
  ℕ, ◌+◌, ◌/◌, String, Bool, true, false, not, ◌&&◌, Option, none, some, List, [], if◌then◌else◌,
  is_some, is_some_and, ◌==◌, string_eq, nat_eq, bool_eq, option_eq,
}
use link_ear.Prelude.Int.{ℤ, pos}
use link_ear.Prelude.Words.{Instant}
use link_ear.Prelude.HashSet
use link_ear.Prelude.HashSet.{HashSet}
use link_ear.Core.Types.{PeerId, PlaybackState, QueueItem}
use link_ear.Core.Vote.{ActiveVote}

pub record PreparingPlayback : Type 0 where
  pub state : PlaybackState
  pub expected_peers : HashSet String
  pub ready_peers : HashSet String
  pub deadline : Instant

pub data PlaybackPhase : Type 0 where
  idle : (state : Option PlaybackState) → PlaybackPhase
  preparing : PreparingPlayback → PlaybackPhase
  active : PlaybackState → PlaybackPhase

pub record MusicState : Type 0 where
  pub queue : List QueueItem
  pub queue_version : ℕ
  pub queue_updated_at : ℤ
  pub playback_version : ℕ
  pub active_vote : Option ActiveVote
  pub playback_phase : PlaybackPhase

pub record VoteInvalidation : Type 0 where
  pub reason : String

-- `#[derive(Default)]`, and the default phase.
unfoldable pub new : MusicState
new = record {
  queue = [];
  queue_version = 0;
  queue_updated_at = pos 0;
  playback_version = 0;
  active_vote = none;
  playback_phase = idle none;
}

unfoldable pub leader : PlaybackState → HashSet String → Instant → PreparingPlayback
leader state expected_peers deadline = record {
  state = state;
  expected_peers = expected_peers;
  ready_peers = HashSet.new;
  deadline = deadline;
}

-- `now` is what `Instant::now()` answers.
unfoldable pub follower : PlaybackState → Instant → PreparingPlayback
follower state now = record {
  state = state;
  expected_peers = HashSet.new;
  ready_peers = HashSet.new;
  deadline = now;
}

unfoldable pub is_leader : PreparingPlayback → PeerId → Bool
is_leader p local_peer_id = p.state.leader_peer_id == local_peer_id

unfoldable pub mark_ready : PreparingPlayback → String → PreparingPlayback × Bool
mark_ready p peer_id =
    if HashSet.contains p.expected_peers peer_id
    then (let (peers, added) = HashSet.insert p.ready_peers peer_id in
        (record p { ready_peers = peers }, added))
    else (p, false)

unfoldable pub ready_count : PreparingPlayback → ℕ
ready_count p = HashSet.len p.ready_peers

unfoldable pub expected_count : PreparingPlayback → ℕ
expected_count p = HashSet.len p.expected_peers

unfoldable pub is_ready : PreparingPlayback → Bool
is_ready p = HashSet.is_subset p.expected_peers p.ready_peers

abbrev phase_state : PlaybackPhase → Option PlaybackState
phase_state (idle state) = state
phase_state (preparing p) = some p.state
phase_state (active state) = some state

unfoldable pub playback_state : MusicState → Option PlaybackState
playback_state m = phase_state m.playback_phase

-- What a write through `playback_state_mut` leaves.
abbrev pub update_phase : (PlaybackState → PlaybackState) → PlaybackPhase → PlaybackPhase
update_phase f (idle none) = idle none
update_phase f (idle (some s)) = idle (some (f s))
update_phase f (preparing p) = preparing (record p { state = f p.state })
update_phase f (active s) = active (f s)

abbrev is_preparing : PlaybackPhase → Bool
is_preparing (preparing p) = true
is_preparing _ = false

unfoldable pub has_pending_playback : MusicState → Bool
has_pending_playback m = is_preparing m.playback_phase

unfoldable pub has_track : MusicState → Bool
unfolding playback_state
has_track m = is_some_and (playback_state m) (λ s. is_some s.track)

unfoldable pub can_start_next : MusicState → Bool
unfolding has_pending_playback has_track
can_start_next m = not (has_pending_playback m) && not (has_track m)

unfoldable pub majority_threshold : ℕ → ℕ
majority_threshold total_peers = total_peers / 2 + 1

unfoldable pub can_control_playback : PlaybackState → PeerId → Bool
can_control_playback state local_peer_id =
    is_some_and state.track_requested_by (λ requester. requester == local_peer_id)

-- The session and the track of a state that has a track.
unfoldable pub playback_track_key : PlaybackState → Option (String × String)
playback_track_key s = elim s.track [
  | none ↦ none
  | some track ↦ some (s.session_id, track.track_id)
]

unfoldable pub current_track_key : MusicState → Option (String × String)
unfolding playback_state playback_track_key
current_track_key m = elim (playback_state m) [ none ↦ none | some s ↦ playback_track_key s ]
