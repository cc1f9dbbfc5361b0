-- ===== src/Buffer/Operation.antt =====
-- src/buffer_state.rs: one buffering operation, the statuses that its peers have sent, and its quorum.
use link_ear.Prelude.{
  ℕ, ◌+◌, ◌-◌, String, Bool, true, false, not, ◌&&◌, Option, none, some, ltb, leb, if◌then◌else◌,
  is_some_and, ◌==◌, ◌!=◌, string_eq, nat_eq, bool_eq, option_eq, count_if,
}
use link_ear.Prelude.Words.{Instant}
use link_ear.Prelude.HashSet
use link_ear.Prelude.HashSet.{HashSet}
use link_ear.Prelude.HashMap
use link_ear.Prelude.HashMap.{HashMap}
use link_ear.Core.Types.{
  PlaybackState, PlaybackBufferOperationKind, PlaybackBufferStatusKind, PlaybackBufferView,
}
use link_ear.Music.State.{majority_threshold}

pub record BufferPeerStatus : Type 0 where
  pub status : PlaybackBufferStatusKind
  pub buffered_until_ms : Option ℕ
  pub error : Option String

pub record BufferOperation : Type 0 where
  pub operation_id : String
  pub state : PlaybackState
  pub kind : PlaybackBufferOperationKind
  pub queue_item_id : Option String
  pub expected_peers : HashSet String
  pub statuses : HashMap String BufferPeerStatus
  pub deadline : Instant
  pub prepare_published_at : Option Instant

pub data BufferQuorum : Type 0 where
  waiting : (ready buffering failed threshold : ℕ) → BufferQuorum
  ready : (ready threshold : ℕ) → BufferQuorum
  impossible : (ready failed threshold : ℕ) → BufferQuorum
  timed_out : (ready threshold : ℕ) → BufferQuorum

-- `PartialEq` of the status kinds and of the statuses.
abbrev pub same_kind : PlaybackBufferStatusKind → PlaybackBufferStatusKind → Bool
same_kind PlaybackBufferStatusKind.ready PlaybackBufferStatusKind.ready = true
same_kind PlaybackBufferStatusKind.buffering PlaybackBufferStatusKind.buffering = true
same_kind PlaybackBufferStatusKind.failed PlaybackBufferStatusKind.failed = true
same_kind _ _ = false

abbrev pub same_status : BufferPeerStatus → BufferPeerStatus → Bool
same_status s t =
    same_kind s.status t.status
    && (s.buffered_until_ms == t.buffered_until_ms)
    && (s.error == t.error)

unfoldable pub count : BufferOperation → PlaybackBufferStatusKind → ℕ
count o kind =
    count_if (λ (s : BufferPeerStatus). same_kind s.status kind) (HashMap.values o.statuses)

unfoldable pub operation_quorum : BufferOperation → Instant → BufferQuorum
unfolding majority_threshold count
operation_quorum o now =
    let r = count o PlaybackBufferStatusKind.ready in
    let b = count o PlaybackBufferStatusKind.buffering in
    let f = count o PlaybackBufferStatusKind.failed in
    let threshold = majority_threshold (HashSet.len o.expected_peers) in
    let remaining = HashSet.len o.expected_peers - (r + f) in
    if leb threshold r
    then ready r threshold
    else if leb o.deadline now
    then timed_out r threshold
    else if ltb (r + remaining) threshold
    then impossible r f threshold
    else waiting r b f threshold

unfoldable pub is_resolved_by_playback_state : BufferOperation → PlaybackState → Bool
is_resolved_by_playback_state o state =
    if o.state.session_id != state.session_id then false else elim state.track [
      | none ↦ true
      | some track ↦
          if not state.playing
          then false
          else is_some_and o.state.track (λ t. t.track_id == track.track_id)
    ]

abbrev quorum_threshold : BufferQuorum → ℕ
quorum_threshold (waiting r b f threshold) = threshold
quorum_threshold (ready r threshold) = threshold
quorum_threshold (impossible r f threshold) = threshold
quorum_threshold (timed_out r threshold) = threshold

unfoldable pub view : BufferOperation → String → Instant → PlaybackBufferView
unfolding operation_quorum
view o local_peer_id now =
    let local = HashMap.get o.statuses local_peer_id in
    record {
      operation_id = o.operation_id;
      session_id = o.state.session_id;
      track_id = elim o.state.track [ none ↦ "" | some track ↦ track.track_id ];
      kind = o.kind;
      local_status = elim local [ none ↦ PlaybackBufferStatusKind.buffering | some s ↦ s.status ];
      ready = count o PlaybackBufferStatusKind.ready;
      buffering = count o PlaybackBufferStatusKind.buffering;
      failed = count o PlaybackBufferStatusKind.failed;
      threshold = quorum_threshold (operation_quorum o now);
      eligible_peers = HashSet.len o.expected_peers;
      position_ms = o.state.position_ms;
      buffered_until_ms = elim local [ none ↦ none | some s ↦ s.buffered_until_ms ];
      error = elim local [ none ↦ none | some s ↦ s.error ];
    }
