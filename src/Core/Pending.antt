-- ===== src/Core/Pending.antt =====
-- src/core.rs: PendingPlayback, the peers that a starting track waits for.
pub mod Laws
mod Tests
use link_ear.Prelude.{ℕ, String, Bool, false, if◌then◌else◌, string_eq, nat_eq, bool_eq, option_eq}
use link_ear.Prelude.Words.{Instant}
use link_ear.Prelude.HashSet
use link_ear.Prelude.HashSet.{HashSet}
use link_ear.Core.Types.{PlaybackState}

pub record PendingPlayback : Type 0 where
  pub state : PlaybackState
  pub expected_peers : HashSet String
  pub ready_peers : HashSet String
  pub deadline : Instant

pub new : PlaybackState → HashSet String → Instant → PendingPlayback
new state expected_peers deadline = record {
  state = state;
  expected_peers = expected_peers;
  ready_peers = HashSet.new;
  deadline = deadline;
}

pub mark_ready : PendingPlayback → String → PendingPlayback × Bool
mark_ready p peer_id =
    if HashSet.contains p.expected_peers peer_id
    then (let (peers, added) = HashSet.insert p.ready_peers peer_id in
        (record p { ready_peers = peers }, added))
    else (p, false)

pub ready_count : PendingPlayback → ℕ
ready_count p = HashSet.len p.ready_peers

pub expected_count : PendingPlayback → ℕ
expected_count p = HashSet.len p.expected_peers

pub is_ready : PendingPlayback → Bool
is_ready p = HashSet.is_subset p.expected_peers p.ready_peers
