-- ===== src/Buffer/Tests.antt =====
-- src/buffer_state.rs: an operation of three peers.
use link_ear.Prelude.HashMap
use link_ear.Prelude.{
  String, ◌≡◌, refl, none, some, List, [], ◌∷◌, string_eq, nat_eq, bool_eq, option_eq,
}
use link_ear.Prelude.HashSet.{contains, HashSet, Distinct, is_subset}
use link_ear.Prelude.HashMap.{
  HashMap, keys, values, Distinct-keys, length-values, get-insert, DistinctKeys,
  insert-DistinctKeys, remove-DistinctKeys, keys-remove-subset, keys-insert-subset,
}
use link_ear.Core.Types.{PlaybackBufferStatusKind, PlaybackBufferOperationKind}
use link_ear.Buffer.Operation.{BufferOperation, BufferPeerStatus, BufferQuorum, operation_quorum}
use link_ear.Buffer.Invariant.{
  IsValid, run-new-AllValid, run, Call, AllValid, start_leader, status, remove_peer,
}
use link_ear.Buffer.{new}
use link_ear.Core.Samples.{playing}
use link_ear.Buffer.Quorum.{operation_quorum-Meaning, Meaning}

abbrev three_peers : HashSet String
three_peers = "alice" ∷ "bob" ∷ "carol" ∷ []

abbrev is_buffered : BufferPeerStatus
is_buffered = record {
  status = PlaybackBufferStatusKind.ready;
  buffered_until_ms = some 9000;
  error = none;
}

abbrev operation : BufferOperation
operation = record {
  operation_id = "o1";
  state = playing;
  kind = PlaybackBufferOperationKind.start;
  queue_item_id = none;
  expected_peers = three_peers;
  statuses = ("bob", is_buffered) ∷ ("alice", is_buffered) ∷ [];
  deadline = 50;
  prepare_published_at = none;
}

two_of_three : operation_quorum operation 10 ≡ BufferQuorum.ready 2 2
unfolding operation_quorum
two_of_three = refl

operation-IsValid : IsValid operation
unfolding contains HashMap.get is_subset
operation-IsValid = record {
  peers_distinct = (refl, (refl, (refl, tt)));
  statuses_distinct = (refl, (refl, tt));
  statuses_expected = refl;
}

three_peers-Distinct : Distinct three_peers
unfolding contains
three_peers-Distinct = (refl, (refl, (refl, tt)))

abbrev calls : List Call
calls =
    start_leader "o1" playing PlaybackBufferOperationKind.start none three_peers 50
      three_peers-Distinct
    ∷ status "o1" "s1" "bob" PlaybackBufferStatusKind.ready (some 9000) none 12
    ∷ remove_peer "bob" 13
    ∷ []

operation_quorum-Meaning_example : Meaning operation 10 (operation_quorum operation 10)
operation_quorum-Meaning_example = operation_quorum-Meaning operation 10 operation-IsValid

run-new-AllValid_example : AllValid (run new calls)
run-new-AllValid_example = run-new-AllValid calls
