-- ===== src/Music/Phase.antt =====
-- src/music_state.rs: the transitions of the playback phase. A next track is prepared by its leader,
-- starts when the expected peers are ready or the wait is over, and ends by a stop, a cancel or the
-- state of another peer.
pub mod Start
use link_ear.Prelude.{
  ℕ, String, Bool, true, false, not, ◌&&◌, ◌||◌, Option, none, some, [], ◌∷◌, leb, if◌then◌else◌,
  is_some, is_some_and, ◌==◌, ◌!=◌, string_eq, nat_eq, bool_eq, option_eq,
}
use link_ear.Prelude.Int.{ℤ, wrapping_add}
use link_ear.Prelude.Words.{Duration, Instant, saturating_add_u64}
use link_ear.Prelude.Text.{display_ℤ, concat}
use link_ear.Prelude.HashSet
use link_ear.Prelude.HashSet.{HashSet}
use link_ear.Core.Types.{one_f32, PeerId, PlaybackState, QueueItem}
use link_ear.Music.State.{
  MusicState, PlaybackPhase, idle, preparing, active, VoteInvalidation, leader, follower, is_leader,
  mark_ready, ready_count, expected_count, is_ready, playback_state,
}
use link_ear.Music.Position.{duration_micros}
use link_ear.Music.Voting.{invalidate_playback_vote, invalidate_playback_vote_if_track_changes}

pub data PlaybackReadyOutcome : Type 0 where
  marked : (ready expected : ℕ) → PlaybackReadyOutcome
  ignored : PlaybackReadyOutcome

pub record PlaybackStart : Type 0 where
  pub state : PlaybackState
  pub reason : String
  pub ready : ℕ
  pub expected : ℕ

pub record PlaybackCancel : Type 0 where
  pub session_id : String
  pub reason : String

pub record BeginPrepare : Type 0 where
  pub canceled : Option PlaybackCancel
  pub state : PlaybackState
  pub expected_peers : HashSet String

abbrev cancel_phase :
    MusicState → PlaybackPhase → PeerId → String → MusicState × Option PlaybackCancel
cancel_phase m (preparing p) local_peer_id reason =
    if is_leader p local_peer_id
    then (
      record m { playback_phase = idle none },
      some (record { session_id = p.state.session_id; reason = reason }),
    )
    else (m, none)
cancel_phase m _ local_peer_id reason = (m, none)

unfoldable pub take_local_pending_cancel :
    MusicState → PeerId → String → MusicState × Option PlaybackCancel
take_local_pending_cancel m local_peer_id reason =
    cancel_phase m m.playback_phase local_peer_id reason

unfoldable pub begin_playback_prepare :
    MusicState → QueueItem → HashSet String → Instant → PeerId → ℤ → MusicState × BeginPrepare
unfolding take_local_pending_cancel leader
begin_playback_prepare m item expected_peers deadline local_peer_id now_micros =
    let (m', canceled) =
      take_local_pending_cancel m local_peer_id "superseded by next queue item" in
    let version = saturating_add_u64 m'.playback_version 1 in
    let state : PlaybackState = record {
      session_id =
          concat (local_peer_id ∷ ":" ∷ display_ℤ now_micros ∷ ":" ∷ item.track.track_id ∷ []);
      leader_peer_id = local_peer_id;
      track = some item.track;
      track_requested_by = some item.requested_by;
      state_version = version;
      issued_at_micros = now_micros;
      playing = false;
      position_ms = 0;
      anchor_time_micros = now_micros;
      rate = one_f32;
    } in
    (
      record m' {
        playback_version = version;
        playback_phase = preparing (leader state expected_peers deadline);
      },
      record { canceled = canceled; state = state; expected_peers = expected_peers },
    )

abbrev ready_phase :
    MusicState → PlaybackPhase → String → String → PeerId → MusicState × PlaybackReadyOutcome
ready_phase m (preparing p) session_id peer_id local_peer_id =
    if (p.state.session_id != session_id) || not (is_leader p local_peer_id)
    then (m, ignored)
    else (let (p', added) = mark_ready p peer_id in
        (
          record m { playback_phase = preparing p' },
          if added then marked (ready_count p') (expected_count p') else ignored,
        ))
ready_phase m _ session_id peer_id local_peer_id = (m, ignored)

unfoldable pub mark_playback_ready :
    MusicState → String → String → PeerId → MusicState × PlaybackReadyOutcome
mark_playback_ready m session_id peer_id local_peer_id =
    ready_phase m m.playback_phase session_id peer_id local_peer_id

abbrev without_peer : MusicState → PlaybackPhase → String → MusicState × Bool
without_peer m (preparing p) peer_id =
    let (expected, expected_removed) = HashSet.remove p.expected_peers peer_id in
    let (ready, ready_removed) = HashSet.remove p.ready_peers peer_id in
    (
      record m {
        playback_phase = preparing (record p { expected_peers = expected; ready_peers = ready });
      },
      expected_removed || ready_removed,
    )
without_peer m _ peer_id = (m, false)

unfoldable pub remove_pending_peer : MusicState → String → MusicState × Bool
remove_pending_peer m peer_id = without_peer m m.playback_phase peer_id

abbrev start_phase :
    MusicState → PlaybackPhase → PeerId → Instant → ℤ → Duration → MusicState × Option PlaybackStart
start_phase m (preparing p) local_peer_id now now_micros start_delay =
    if not (is_leader p local_peer_id)
    then (m, none)
    else if not (is_ready p) && not (leb p.deadline now)
    then (m, none)
    else (let version = saturating_add_u64 m.playback_version 1 in
        let state = record (p.state) {
          state_version = version;
          issued_at_micros = now_micros;
          playing = true;
          position_ms = 0;
          anchor_time_micros = wrapping_add now_micros (duration_micros start_delay);
        } in
        (
          record m { playback_version = version; playback_phase = active state },
          some (record {
            state = state;
            reason = if is_ready p then "all peers ready" else "ready wait timed out";
            ready = ready_count p;
            expected = expected_count p;
          }),
        ))
start_phase m _ local_peer_id now now_micros start_delay = (m, none)

unfoldable pub maybe_start_pending_playback :
    MusicState → PeerId → Instant → ℤ → Duration → MusicState × Option PlaybackStart
maybe_start_pending_playback m local_peer_id now now_micros start_delay =
    start_phase m m.playback_phase local_peer_id now now_micros start_delay

-- `now` is what `Instant::now()` answers.
unfoldable pub set_remote_playback_prepare :
    MusicState → PlaybackState → Instant → MusicState × Option VoteInvalidation
unfolding follower
set_remote_playback_prepare m state now =
    let (m', invalidated) = invalidate_playback_vote_if_track_changes m state in
    (record m' { playback_phase = preparing (follower state now) }, invalidated)

unfoldable pub set_playback_state :
    MusicState → PlaybackState → MusicState × Option VoteInvalidation
set_playback_state m state =
    let (m', invalidated) = invalidate_playback_vote_if_track_changes m state in
    (
      record m' {
        playback_phase = if is_some state.track then active state else idle (some state);
      },
      invalidated,
    )

unfoldable pub cancel_playback : MusicState → String → MusicState × Option VoteInvalidation
unfolding playback_state invalidate_playback_vote
cancel_playback m session_id =
    if not (is_some_and (playback_state m) (λ s. s.session_id == session_id))
    then (m, none)
    else (let (m', invalidated) = invalidate_playback_vote m "playback changed during vote" in
        (record m' { playback_phase = idle none }, invalidated))
