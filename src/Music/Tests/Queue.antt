-- ===== src/Music/Tests/Queue.antt =====
-- src/music_state.rs: edits of a queue of two items, and two queue states of other peers.
use link_ear.Prelude.{
  ℕ, ◌≡◌, refl, inl, none, some, [], ◌∷◌, arith, string_eq, nat_eq, bool_eq, option_eq,
}
use link_ear.Music.State.{MusicState, active}
use link_ear.Music.Queue.{remove_queue_index, apply_remote_queue_state}
use link_ear.Prelude.Int.{pos}
use link_ear.Core.Samples.{playing, item, other_item, old_queue, new_queue}
use link_ear.Music.Queue.Newer.{apply_remote-commutes, shared}

abbrev room : MusicState
room = record {
  queue = item ∷ other_item ∷ [];
  queue_version = 2;
  queue_updated_at = pos 30;
  playback_version = 3;
  active_vote = none;
  playback_phase = active playing;
}

abbrev second : ℕ
second = 2

abbrev low : ℕ
low = 3

abbrev high : ℕ
high = 4

second_item : (remove_queue_index room 2).1 ≡ some other_item
unfolding remove_queue_index
second_item = refl

apply_remote-commutes_example :
    shared (apply_remote_queue_state (apply_remote_queue_state room old_queue).0 new_queue).0
    ≡ shared (apply_remote_queue_state (apply_remote_queue_state room new_queue).0 old_queue).0
apply_remote-commutes_example =
    apply_remote-commutes room old_queue new_queue (inl λ e. absurd (omega arith))
