-- ===== src/Backend/Playback.antt =====
-- src/backend.rs: which queue item, track and stream event belong to a playback.
pub mod Started
use link_ear.Prelude.{
  ℕ, String, Bool, true, false, not, ◌&&◌, ◌||◌, Option, none, some, List, [], ◌∷◌, if◌then◌else◌,
  is_some, is_some_and, is_none_or, ◌==◌, ◌!=◌, string_eq, nat_eq, bool_eq, option_eq,
}
use link_ear.Prelude.HashSet
use link_ear.Prelude.HashSet.{HashSet}
use link_ear.Prelude.Int.{ℤ, leb_ℤ, ltb_ℤ}
use link_ear.Prelude.Text.{concat}
use link_ear.Core.Types.{PeerId, F32, QueueItem, PlaybackState, PlaybackTrack}
use link_ear.Music.State.{MusicState, playback_state}
use link_ear.Music.Queue.{remove_at, mark_queue_changed}
use link_ear.Music.Position.{can_play_at_position, playback_position_ms}
use link_ear.Buffer.Operation.{BufferOperation}
use link_ear.Buffer.{BufferCoordinator}
use link_ear.Backend.Votes.{position}

abbrev removed_from : MusicState → Option ℕ → MusicState × Bool
removed_from m none = (m, false)
removed_from m (some index) = (record m { queue = (remove_at m.queue index).0 }, true)

-- `now` is `current_timestamp_micros`.
abbrev changed_if : ℤ → MusicState × Bool → MusicState
changed_if now (m, removed) = if removed then mark_queue_changed m now else m

unfoldable pub remove_buffer_queue_item : MusicState → BufferOperation → ℤ → MusicState
unfolding mark_queue_changed
remove_buffer_queue_item m operation now = elim operation.queue_item_id [
  | none ↦ m
  | some item_id ↦
      changed_if now (removed_from m (position (λ item. item.item_id == item_id) m.queue))
]

unfoldable pub queue_item_matches_started_playback : QueueItem → PlaybackState → String → Bool
queue_item_matches_started_playback item state track_id =
    if item.track.track_id != track_id
    then false
    else if is_some_and state.track_requested_by (λ requester. item.requested_by != requester)
    then false
    else leb_ℤ item.added_at_micros state.issued_at_micros

unfoldable pub remove_started_playback_queue_item : MusicState → PlaybackState → MusicState × Bool
unfolding queue_item_matches_started_playback
remove_started_playback_queue_item m state = elim state.track [
  | none ↦ (m, false)
  | some track ↦
      removed_from m
        (position (λ item. queue_item_matches_started_playback item state track.track_id) m.queue)
]

abbrev tracks : Option PlaybackTrack → String → Bool
tracks track track_id = is_some_and track (λ t. t.track_id == track_id)

unfoldable pub playback_state_resolves_buffer_prepare :
    Option PlaybackState → String → String → String → Bool
playback_state_resolves_buffer_prepare none session_id track_id leader_peer_id = false
playback_state_resolves_buffer_prepare (some current) session_id track_id leader_peer_id =
    if (current.session_id != session_id) || (current.leader_peer_id != leader_peer_id)
    then false
    else tracks current.track track_id

abbrev pub requester_of : PlaybackState → String
requester_of state = elim state.track_requested_by [
  | none ↦ state.leader_peer_id
  | some peer ↦ peer
]

abbrev pub item_of : PlaybackState → PlaybackTrack → QueueItem
item_of state track = record {
  item_id = concat ("playback-" ∷ state.session_id ∷ []);
  track = track;
  requested_by = requester_of state;
  added_at_micros = state.issued_at_micros;
}

unfoldable pub queue_item_from_playback_state : PlaybackState → Option QueueItem
queue_item_from_playback_state state = elim state.track [
  | none ↦ none
  | some track ↦ some (item_of state track)
]

abbrev find_track : List QueueItem → String → Option PlaybackTrack
find_track [] track_id = none
find_track (item ∷ items) track_id =
    let rest = find_track items track_id in
    if item.track.track_id == track_id then some item.track else rest

abbrev track_of : Option PlaybackState → Option PlaybackTrack
track_of none = none
track_of (some state) = state.track

-- The track if it has the id, and otherwise the first of the queue that has.
abbrev track_or_queued : Option PlaybackTrack → List QueueItem → String → Option PlaybackTrack
track_or_queued track queue track_id =
    if tracks track track_id then track else find_track queue track_id

unfoldable pub find_buffer_track : MusicState → String → Option PlaybackTrack
unfolding playback_state
find_buffer_track m track_id = track_or_queued (track_of (playback_state m)) m.queue track_id

abbrev duration_of : Option PlaybackTrack → Option ℕ
duration_of none = none
duration_of (some track) = some track.duration_ms

abbrev track_in : Option PlaybackState → String → Option PlaybackTrack
track_in none session_id = none
track_in (some state) session_id = if state.session_id == session_id then state.track else none

unfoldable pub track_duration_for_session : MusicState → String → String → Option ℕ
unfolding playback_state
track_duration_for_session m session_id track_id =
    duration_of (track_or_queued (track_in (playback_state m) session_id) m.queue track_id)

unfoldable pub playback_state_uses_failed_audio_session : HashSet String → PlaybackState → Bool
unfolding HashSet.contains
playback_state_uses_failed_audio_session failed_audio_sessions state =
    is_some state.track && HashSet.contains failed_audio_sessions state.session_id

unfoldable pub playback_state_title : PlaybackState → String
playback_state_title state = elim state.track [ none ↦ "playback" | some track ↦ track.title ]

unfoldable pub playback_state_matches_track : PlaybackState → String → String → Bool
playback_state_matches_track state session_id track_id =
    (state.session_id == session_id) && tracks state.track track_id

unfoldable pub music_stream_event_matches : MusicState → String → String → Bool
unfolding playback_state playback_state_matches_track
music_stream_event_matches m session_id track_id =
    is_some_and (playback_state m) (λ state. playback_state_matches_track state session_id track_id)

-- The session and track of an operation.
abbrev plays : BufferOperation → String → String → Bool
plays operation session_id track_id =
    (operation.state.session_id == session_id) && tracks operation.state.track track_id

unfoldable pub stream_event_matches_current :
    BufferCoordinator → MusicState → Option String → String → String → Bool
unfolding music_stream_event_matches
stream_event_matches_current buffer music operation_id session_id track_id = elim buffer.active [
  | none ↦ music_stream_event_matches music session_id track_id
  | some operation ↦
      if plays operation session_id track_id
      then operation_id == some operation.operation_id
      else music_stream_event_matches music session_id track_id
]

unfoldable pub stream_event_matches_active_operation :
    BufferCoordinator → String → String → Option String → Bool
stream_event_matches_active_operation buffer session_id track_id operation_id =
    is_some_and buffer.active (λ operation.
      plays operation session_id track_id
      && is_none_or operation_id (λ id. id == operation.operation_id))

unfoldable pub active_buffer_operation_matches : BufferCoordinator → String → String → String → Bool
active_buffer_operation_matches buffer operation_id session_id track_id =
    is_some_and buffer.active
      (λ operation. (operation.operation_id == operation_id) && plays operation session_id track_id)

unfoldable pub should_sync_player_to_playback_state : BufferCoordinator → PlaybackState → Bool
should_sync_player_to_playback_state buffer state = elim state.track [
  | none ↦ true
  | some track ↦
      not (is_some_and buffer.active (λ operation. plays operation state.session_id track.track_id))
]

pub data FinishedPlaybackRole : Type 0 where
  leader : FinishedPlaybackRole
  follower : FinishedPlaybackRole

-- `elapsed_ms` is the parameter of the positions.
module _ (elapsed_ms : ℕ → F32 → ℕ) where
  unfoldable pub finished_playback_role :
      PlaybackState → PeerId → ℤ → Bool → Option FinishedPlaybackRole
  unfolding can_play_at_position playback_position_ms
  finished_playback_role state local_peer_id now_micros local_audio_finished =
      let position_ms = playback_position_ms elapsed_ms state now_micros in
      if not (is_some state.track) || not state.playing || ltb_ℤ now_micros state.anchor_time_micros
      then none
      else if not (not (can_play_at_position state position_ms) || local_audio_finished)
      then none
      else if state.leader_peer_id == local_peer_id
      then some leader
      else some follower
