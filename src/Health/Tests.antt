-- ===== src/Health/Tests.antt =====
-- src/playback_health.rs: three peers of which one is healthy.
use link_ear.Prelude.HashMap
use link_ear.Prelude.{
  String, refl, false, none, some, List, [], ◌∷◌, arith, string_eq, nat_eq, bool_eq, option_eq, All,
}
use link_ear.Prelude.HashSet.{HashSet}
use link_ear.Core.Types.{ready, buffering}
use link_ear.Health.{
  PlaybackHealth, reset_session, mark_status, decide, evaluate, PlaybackHealthStatus, is_healthy,
  healthy_count,
}
use link_ear.Prelude.HashMap.{get-insert, get-insert_self}
use link_ear.Health.Loss.{lost_reported_once, run, Tick, mark, check, IsStable}
use link_ear.Music.State.{majority_threshold}

abbrev three_peers : HashSet String
three_peers = "alice" ∷ "bob" ∷ "carol" ∷ []

abbrev is_buffered : PlaybackHealthStatus
is_buffered = record { status = ready; buffered_until_ms = some 9000; updated_at = 1 }

abbrev in_session : PlaybackHealth
in_session = record {
  session_id = some "s1";
  statuses = ("alice", is_buffered) ∷ [];
  published_statuses = ("alice", is_buffered) ∷ [];
  loss_since = none;
  paused_for_loss = false;
}

abbrev losing : PlaybackHealth
losing = record (in_session) { loss_since = some 2 }

abbrev alice : String
alice = "alice"

abbrev bob : String
bob = "bob"

abbrev ticks : List Tick
ticks = mark "bob" buffering none 11 ∷ check three_peers 600 12 ∷ []

lost_reported_once_example :
    All IsStable (run "s1" 5 100 (evaluate losing "s1" three_peers 500 10 5 100).0 ticks).1
unfolding evaluate decide healthy_count is_healthy reset_session HashMap.get majority_threshold
    mark_status HashMap.insert
lost_reported_once_example =
    lost_reported_once "s1" 5 100 losing three_peers 500 10 1 2 ticks refl (omega arith, tt)
