-- ===== src/Music/Remote.antt =====
-- src/music_state.rs: what the messages of other peers do to the state, in any order.
use link_ear.Prelude.{
  ℕ, String, Bool, Option, none, some, List, [], ◌∷◌, nat_eq, bool_eq, option_eq,
}
use link_ear.Prelude.Words.{Instant}
use link_ear.Core.Types.{PlaybackState, QueueState, VoteProposal}
use link_ear.Music.State.{MusicState}
use link_ear.Music.Voting.{receive_vote_proposal, cast_vote_for, resolve_vote}
use link_ear.Music.Queue.{apply_remote_queue_state}
use link_ear.Music.Phase.{set_remote_playback_prepare, set_playback_state, cancel_playback}

abbrev session_of : PlaybackState → Option String
session_of s = elim s.track [ none ↦ none | some track ↦ some s.session_id ]

pub data RemoteEvent : Type 0 where
  proposal : VoteProposal → (deadline : Instant) → RemoteEvent
  ballot : (vote_id peer_id : String) → (approve : Bool) → RemoteEvent
  resolve : (threshold eligible : ℕ) → RemoteEvent
  queue : QueueState → RemoteEvent
  prepare : PlaybackState → (now : Instant) → RemoteEvent
  state : PlaybackState → RemoteEvent
  cancel : (session_id : String) → RemoteEvent

abbrev pub receive : MusicState → RemoteEvent → MusicState
receive m (proposal p deadline) = (receive_vote_proposal m p deadline).0
receive m (ballot vote_id peer_id approve) = (cast_vote_for m vote_id peer_id approve).0
receive m (resolve threshold eligible) = (resolve_vote m threshold eligible).0
receive m (queue q) = (apply_remote_queue_state m q).0
receive m (prepare s now) = (set_remote_playback_prepare m s now).0
receive m (state s) = (set_playback_state m s).0
receive m (cancel session_id) = (cancel_playback m session_id).0

abbrev pub receive_all : MusicState → List RemoteEvent → MusicState
receive_all m [] = m
receive_all m (e ∷ es) = receive_all (receive m e) es
