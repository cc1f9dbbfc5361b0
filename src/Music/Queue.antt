-- ===== src/Music/Queue.antt =====
-- src/music_state.rs: the shared queue, its version, and the queue states of other peers.
pub mod Edit
pub mod Newer
use link_ear.Prelude.{
  ℕ, zero, suc, Bool, not, ◌&&◌, ◌||◌, Option, none, some, List, [], ◌∷◌, ◌++◌, ltb, if◌then◌else◌,
  ◌==◌, string_eq, nat_eq, bool_eq, option_eq, length, get_elem?,
}
use link_ear.Prelude.Int.{ℤ, ltb_ℤ, int_eq}
use link_ear.Prelude.Words.{saturating_add_u64}
use link_ear.Core.Types.{PeerId, QueueItem, QueueState}
use link_ear.Music.State.{MusicState, VoteInvalidation}
use link_ear.Music.Voting.{invalidate_stale_queue_vote}

pub record RemoteQueueApply : Type 0 where
  pub state : QueueState
  pub invalidated_vote : Option VoteInvalidation

unfoldable pub queue_state : MusicState → PeerId → QueueState
queue_state m local_peer_id = record {
  version = m.queue_version;
  updated_at_micros = m.queue_updated_at;
  updated_by = local_peer_id;
  items = m.queue;
}

unfoldable pub mark_queue_changed : MusicState → ℤ → MusicState
mark_queue_changed m updated_at_micros = record m {
  queue_version = saturating_add_u64 m.queue_version 1;
  queue_updated_at = updated_at_micros;
}

unfoldable pub mark_queue_vote_applied : MusicState → ℤ → MusicState
unfolding mark_queue_changed
mark_queue_vote_applied m updated_at_micros = mark_queue_changed m updated_at_micros

unfoldable pub append_queue_item : MusicState → QueueItem → MusicState × ℕ
append_queue_item m item = (record m { queue = m.queue ++ item ∷ [] }, length m.queue)

-- `VecDeque::remove`: the element and the rest; nothing happens out of bounds.
abbrev pub remove_at : List QueueItem → ℕ → List QueueItem × Option QueueItem
remove_at [] i = ([], none)
remove_at (x ∷ xs) zero = (xs, some x)
remove_at (x ∷ xs) (suc i) = let (rest, found) = remove_at xs i in (x ∷ rest, found)

-- Indices from outside count from 1.
abbrev remove_from_one : MusicState → ℕ → MusicState × Option QueueItem
remove_from_one m zero = (m, none)
remove_from_one m (suc i) =
    let (rest, found) = remove_at m.queue i in (record m { queue = rest }, found)

unfoldable pub remove_queue_index : MusicState → ℕ → MusicState × Option QueueItem
remove_queue_index m index = remove_from_one m index

unfoldable pub queue_item_at : List QueueItem → ℕ → Option QueueItem
queue_item_at queue zero = none
queue_item_at queue (suc i) = get_elem? queue i

unfoldable pub pop_next_queue_item : MusicState → MusicState × Option QueueItem
pop_next_queue_item m = elim m.queue [
  | [] ↦ (m, none)
  | item ∷ rest ↦ (record m { queue = rest }, some item)
]

unfoldable pub is_queue_state_newer : ℕ → ℤ → ℕ → ℤ → Bool
is_queue_state_newer candidate_version candidate_updated_at local_version local_updated_at =
    ltb_ℤ local_updated_at candidate_updated_at
    || ((candidate_updated_at == local_updated_at) && ltb local_version candidate_version)

unfoldable pub should_apply_queue_state : ℕ → ℤ → QueueState → Bool
unfolding is_queue_state_newer
should_apply_queue_state local_version local_updated_at state =
    is_queue_state_newer state.version state.updated_at_micros local_version local_updated_at

unfoldable pub apply_remote_queue_state :
    MusicState → QueueState → MusicState × Option RemoteQueueApply
unfolding should_apply_queue_state
apply_remote_queue_state m state =
    if not (should_apply_queue_state m.queue_version m.queue_updated_at state)
    then (m, none)
    else (let (m', invalidated) = invalidate_stale_queue_vote (record m {
      queue = state.items;
      queue_version = state.version;
      queue_updated_at = state.updated_at_micros;
    }) in
        (m', some (record { state = state; invalidated_vote = invalidated })))
