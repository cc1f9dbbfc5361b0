-- ===== src/Buffer/Invariant.antt =====
-- src/buffer_state.rs: only expected peers have a status, and each has one.
use link_ear.Prelude.{
  ℕ, ◌+◌, String, ◌≡◌, refl, true, Option, none, some, List, [], ◌∷◌, arith, string_eq, nat_eq,
  bool_eq, option_eq,
}
use link_ear.Prelude.Words.{Duration, Instant}
use link_ear.Prelude.HashSet.{HashSet, contains, Distinct, is_subset, delete, delete-Distinct}
use link_ear.Prelude.HashMap.{
  HashMap, DistinctKeys, keys, insert-DistinctKeys, remove-DistinctKeys, keys-remove-subset,
  keys-insert-subset,
}
use link_ear.Prelude.HashMap
use link_ear.Core.Types.{PlaybackState, PlaybackBufferOperationKind, PlaybackBufferStatusKind}
use link_ear.Buffer.Operation.{BufferOperation, BufferPeerStatus}
use link_ear.Buffer.{
  BufferCoordinator, new, start_leader_operation, receive_remote_operation, extend_active_deadline,
  remove_expected_peer, mark_prepare_published, prepare_republish_due, mark_status, cancel, clear,
  clear_if_local_leader, clear_matching_playback_state,
}

pub record IsValid (o : BufferOperation) : Type 0 where
  pub peers_distinct : Distinct o.expected_peers
  pub statuses_distinct : DistinctKeys o.statuses
  pub statuses_expected : is_subset (keys o.statuses) o.expected_peers ≡ true

-- The active operation, if any, is valid.
abbrev pub ValidActive : Option BufferOperation → Type 0
ValidActive none = Unit
ValidActive (some o) = IsValid o

abbrev pub AllValid : BufferCoordinator → Type 0
AllValid c = ValidActive c.active

-- The calls of the coordinator; a set of expected peers lists no peer twice.
pub data Call : Type 0 where
  start_leader :
      (operation_id : String) (state : PlaybackState) (kind : PlaybackBufferOperationKind)
      (queue_item_id : Option String) (expected_peers : HashSet String) (deadline : Instant)
      → Distinct expected_peers
      → Call
  receive_remote :
      (operation_id : String) (state : PlaybackState) (kind : PlaybackBufferOperationKind)
      (expected_peers : HashSet String) (timeout : Duration) (now : Instant)
      → Distinct expected_peers
      → Call
  extend : (deadline : Instant) → Call
  remove_peer : (peer_id : String) (now : Instant) → Call
  published : (operation_id : String) (now : Instant) → Call
  republish : (now : Instant) (interval : Duration) → Call
  status :
      (operation_id session_id peer_id : String) (status : PlaybackBufferStatusKind)
      (buffered_until_ms : Option ℕ) (error : Option String) (now : Instant)
      → Call
  cancels : (operation_id : String) → Call
  clears : Call
  clears_leader : (local_peer_id : String) → Call
  resolves : PlaybackState → Call

abbrev pub step : BufferCoordinator → Call → BufferCoordinator
step c (start_leader id s kind item peers deadline d) =
    start_leader_operation c id s kind item peers deadline
step c (receive_remote id s kind peers timeout now d) =
    receive_remote_operation c id s kind peers timeout now
step c (extend deadline) = (extend_active_deadline c deadline).0
step c (remove_peer peer now) = (remove_expected_peer c peer now).0
step c (published id now) = (mark_prepare_published c id now).0
step c (republish now interval) = (prepare_republish_due c now interval).0
step c (status id session peer kind until error now) =
    (mark_status c id session peer kind until error now).0
step c (cancels id) = (cancel c id).0
step c clears = (clear c).0
step c (clears_leader local) = (clear_if_local_leader c local).0
step c (resolves s) = (clear_matching_playback_state c s).0

abbrev pub run : BufferCoordinator → List Call → BufferCoordinator
run c [] = c
run c (e ∷ es) = run (step c e) es

status-IsValid :
    (o : BufferOperation) (peer : String) (s : BufferPeerStatus)
    → contains o.expected_peers peer ≡ true
    → IsValid o
    → IsValid (record o { statuses = HashMap.insert o.statuses peer s })
status-IsValid o peer s here v = record {
  peers_distinct = v.peers_distinct;
  statuses_distinct = insert-DistinctKeys o.statuses peer s v.statuses_distinct;
  statuses_expected =
      keys-insert-subset o.statuses peer s o.expected_peers here v.statuses_expected;
}

remove-IsValid :
    (o : BufferOperation) (peer : String)
    → IsValid o
    → IsValid (record o {
      expected_peers = delete o.expected_peers peer;
      statuses = HashMap.remove o.statuses peer;
    })
remove-IsValid o peer v = record {
  peers_distinct = delete-Distinct o.expected_peers peer v.peers_distinct;
  statuses_distinct = remove-DistinctKeys o.statuses peer v.statuses_distinct;
  statuses_expected = keys-remove-subset o.statuses peer o.expected_peers v.statuses_expected;
}

fresh-IsValid :
    (o : BufferOperation) → Distinct o.expected_peers → o.statuses ≡ HashMap.new → IsValid o
unfolding is_subset
fresh-IsValid o d e = record {
  peers_distinct = d;
  statuses_distinct = ground arith;
  statuses_expected = ground arith;
}

abbrev remote_operation :
    String
    → PlaybackState
    → PlaybackBufferOperationKind
    → HashSet String
    → Duration
    → Instant
    → BufferOperation
remote_operation id s kind peers timeout now = record {
  operation_id = id;
  state = s;
  kind = kind;
  queue_item_id = none;
  expected_peers = peers;
  statuses = HashMap.new;
  deadline = now + timeout;
  prepare_published_at = none;
}

some-step :
    (o : BufferOperation) (e : Call)
    → IsValid o
    → ValidActive (step (record { active = some o }) e).active
unfolding start_leader_operation receive_remote_operation extend_active_deadline
    remove_expected_peer mark_prepare_published prepare_republish_due mark_status cancel clear
    clear_if_local_leader clear_matching_playback_state
some-step o (start_leader id s kind item peers deadline d) v = fresh-IsValid _ d refl
some-step o (receive_remote id s kind peers timeout now d) v =
    ground (arith, fresh-IsValid (remote_operation id s kind peers timeout now) d refl)
some-step o (extend deadline) v = ground arith
some-step o (remove_peer peer now) v = remove-IsValid o peer v
some-step o (published id now) v = ground arith
some-step o (republish now interval) v = ground arith
some-step o (status id session peer kind until error now) v = ground (
  arith,
  status-IsValid o peer (record { status = kind; buffered_until_ms = until; error = error }),
)
some-step o (cancels id) v = ground arith
some-step o clears v = tt
some-step o (clears_leader local) v = ground arith
some-step o (resolves s) v = ground arith

none-step : (e : Call) → ValidActive (step (record { active = none }) e).active
unfolding start_leader_operation receive_remote_operation extend_active_deadline
    remove_expected_peer mark_prepare_published prepare_republish_due mark_status cancel clear
    clear_if_local_leader clear_matching_playback_state
none-step (start_leader id s kind item peers deadline d) = fresh-IsValid _ d refl
none-step (receive_remote id s kind peers timeout now d) = fresh-IsValid _ d refl
none-step (extend deadline) = tt
none-step (remove_peer peer now) = tt
none-step (published id now) = tt
none-step (republish now interval) = tt
none-step (status id session peer kind until error now) = tt
none-step (cancels id) = tt
none-step clears = tt
none-step (clears_leader local) = tt
none-step (resolves s) = tt

step_at :
    (a : Option BufferOperation) (e : Call)
    → ValidActive a
    → ValidActive (step (record { active = a }) e).active
step_at none e v = none-step e
step_at (some o) e v = some-step o e v

run-AllValid : (c : BufferCoordinator) (es : List Call) → AllValid c → AllValid (run c es)
run-AllValid c [] v = v
run-AllValid c (e ∷ es) v = run-AllValid (step c e) es (step_at c.active e v)

-- After any calls to a new coordinator, the active operation, if there is one, has distinct expected
-- peers and one status at most for each of them, and none for any other peer.
pub run-new-AllValid : (es : List Call) → AllValid (run new es)
unfolding new
run-new-AllValid es = run-AllValid new es tt
