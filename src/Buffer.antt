-- ===== src/Buffer.antt =====
-- src/buffer_state.rs: the coordinator that waits until a majority of the peers has buffered a track
-- before it starts, seeks or resumes.
pub mod Operation
pub mod Invariant
pub mod Quorum
mod Tests
use link_ear.Prelude.{
  ℕ, zero, suc, ◌+◌, ◌-◌, ◌*◌, ◌/◌, ◌%◌, ◌^◌, ◌≤◌, ◌<◌, min, max, String, ◌≡◌, refl, sym, ap, ◌∙◌,
  ◌≢◌, ◌↔◌, ◌⊎◌, inl, inr, Bool, true, false, not, ◌&&◌, ◌||◌, Option, none, some, List, [], ◌∷◌,
  ◌++◌, map, arith, ltb, leb, ltb→lt, lt→ltb, leb→le, if◌then◌else◌, Bool-cases, Option-cases,
  is_some, is_some_and, is_none_or, Eq, ◌==◌, ◌!=◌, string_eq, nat_eq, bool_eq, option_eq, beq_refl,
  beq→eq, length, get_elem?, take, drop, length-append, any, all, filter, count_if,
  count_if-le-length, All,
}
use link_ear.Prelude.Words.{Duration, Instant, duration_since}
use link_ear.Prelude.HashSet
use link_ear.Prelude.HashSet.{HashSet}
use link_ear.Prelude.HashMap
use link_ear.Prelude.HashMap.{HashMap}
use link_ear.Core.Types.{
  PlaybackState, PlaybackTrack, PlaybackBufferOperationKind, PlaybackBufferStatusKind,
  PlaybackBufferView,
}
use link_ear.Music.State.{majority_threshold}
use link_ear.Buffer.Operation.{
  BufferPeerStatus, BufferOperation, BufferQuorum, operation_quorum, is_resolved_by_playback_state,
  same_status,
}

pub data BufferStatusOutcome : Type 0 where
  accepted : BufferQuorum → BufferStatusOutcome
  ignored : BufferStatusOutcome

pub record BufferCoordinator : Type 0 where
  pub active : Option BufferOperation

unfoldable pub new : BufferCoordinator
new = record { active = none }

unfoldable pub start_leader_operation :
    BufferCoordinator
    → String
    → PlaybackState
    → PlaybackBufferOperationKind
    → Option String
    → HashSet String
    → Instant
    → BufferCoordinator
start_leader_operation c operation_id state kind queue_item_id expected_peers deadline = record c {
  active = some (record {
    operation_id = operation_id;
    state = state;
    kind = kind;
    queue_item_id = queue_item_id;
    expected_peers = expected_peers;
    statuses = HashMap.new;
    deadline = deadline;
    prepare_published_at = none;
  });
}

unfoldable pub receive_remote_operation :
    BufferCoordinator
    → String
    → PlaybackState
    → PlaybackBufferOperationKind
    → HashSet String
    → Duration
    → Instant
    → BufferCoordinator
receive_remote_operation c operation_id state kind expected_peers timeout now =
    if is_some_and c.active
      (λ o. (o.operation_id == operation_id) && (o.state.session_id == state.session_id))
    then c
    else record c {
      active = some (record {
        operation_id = operation_id;
        state = state;
        kind = kind;
        queue_item_id = none;
        expected_peers = expected_peers;
        statuses = HashMap.new;
        deadline = now + timeout;
        prepare_published_at = none;
      });
    }

unfoldable pub status_for : BufferCoordinator → String → String → String → Option BufferPeerStatus
status_for c operation_id session_id peer_id = elim c.active [
  | none ↦ none
  | some o ↦
      if (o.operation_id == operation_id) && (o.state.session_id == session_id)
      then HashMap.get o.statuses peer_id
      else none
]

unfoldable pub status_matches :
    BufferCoordinator → String → String → String → BufferPeerStatus → Bool
status_matches c operation_id session_id peer_id status = elim c.active [
  | none ↦ false
  | some o ↦
      if (o.operation_id != operation_id) || (o.state.session_id != session_id)
      then false
      else is_some_and (HashMap.get o.statuses peer_id) (λ s. same_status s status)
]

unfoldable pub extend_active_deadline :
    BufferCoordinator → Instant → BufferCoordinator × Option BufferOperation
extend_active_deadline c deadline = elim c.active [
  | none ↦ (c, none)
  | some o ↦ let o' = record o { deadline = deadline } in (record c { active = some o' }, some o')
]

unfoldable pub remove_expected_peer :
    BufferCoordinator → String → Instant → BufferCoordinator × Option BufferQuorum
unfolding HashSet.remove
remove_expected_peer c peer_id now = elim c.active [
  | none ↦ (c, none)
  | some o ↦
      let (expected, removed_expected) = HashSet.remove o.expected_peers peer_id in
      let removed_status = is_some (HashMap.get o.statuses peer_id) in
      let o' = record o {
        expected_peers = expected;
        statuses = HashMap.remove o.statuses peer_id;
      } in
      (
        record c { active = some o' },
        if removed_expected || removed_status then some (operation_quorum o' now) else none,
      )
]

unfoldable pub mark_prepare_published :
    BufferCoordinator → String → Instant → BufferCoordinator × Bool
mark_prepare_published c operation_id now = elim c.active [
  | none ↦ (c, false)
  | some o ↦
      if o.operation_id != operation_id
      then (c, false)
      else (record c { active = some (record o { prepare_published_at = some now }) }, true)
]

unfoldable pub prepare_republish_due :
    BufferCoordinator → Instant → Duration → BufferCoordinator × Option BufferOperation
prepare_republish_due c now interval = elim c.active [
  | none ↦ (c, none)
  | some o ↦
      if not (is_none_or o.prepare_published_at (λ last. leb interval (duration_since now last)))
      then (c, none)
      else (let o' = record o { prepare_published_at = some now } in
          (record c { active = some o' }, some o'))
]

unfoldable pub mark_status :
    BufferCoordinator
    → String
    → String
    → String
    → PlaybackBufferStatusKind
    → Option ℕ
    → Option String
    → Instant
    → BufferCoordinator × BufferStatusOutcome
mark_status c operation_id session_id peer_id status buffered_until_ms error now = elim c.active [
  | none ↦ (c, ignored)
  | some o ↦
      if (o.operation_id != operation_id) || (o.state.session_id != session_id)
      then (c, ignored)
      else if not (HashSet.contains o.expected_peers peer_id)
      then (c, ignored)
      else (let o' = record o {
        statuses =
            HashMap.insert o.statuses peer_id
              (record { status = status; buffered_until_ms = buffered_until_ms; error = error });
      } in
          (record c { active = some o' }, accepted (operation_quorum o' now)))
]

unfoldable pub quorum : BufferCoordinator → Instant → Option BufferQuorum
quorum c now = elim c.active [ none ↦ none | some o ↦ some (operation_quorum o now) ]

-- The operation is taken out if it passes a test.
abbrev take_if :
    BufferCoordinator → (BufferOperation → Bool) → BufferCoordinator × Option BufferOperation
take_if c test =
    if is_some_and c.active test then (record c { active = none }, c.active) else (c, none)

unfoldable pub cancel : BufferCoordinator → String → BufferCoordinator × Option BufferOperation
cancel c operation_id = take_if c (λ o. o.operation_id == operation_id)

unfoldable pub clear : BufferCoordinator → BufferCoordinator × Option BufferOperation
clear c = (record c { active = none }, c.active)

unfoldable pub clear_if_local_leader :
    BufferCoordinator → String → BufferCoordinator × Option BufferOperation
clear_if_local_leader c local_peer_id = take_if c (λ o. o.state.leader_peer_id == local_peer_id)

unfoldable pub clear_matching_playback_state :
    BufferCoordinator → PlaybackState → BufferCoordinator × Option BufferOperation
unfolding is_resolved_by_playback_state
clear_matching_playback_state c state = take_if c (λ o. is_resolved_by_playback_state o state)
