-- ===== src/Music/Tests/Voting.antt =====
-- src/music_state.rs: votes on a pause and on the removal of a queue item.
use link_ear.Core.Vote
use link_ear.Prelude.{
  ◌≤◌, ◌<◌, ◌≡◌, refl, ◌⊎◌, true, none, some, List, [], ◌∷◌, string_eq, nat_eq, bool_eq, option_eq,
}
use link_ear.Core.Types.{VoteProposal}
use link_ear.Core.Vote.{ActiveVote, passed, rejected, terminal_outcome, approval_count}
use link_ear.Music.State.{MusicState, active}
use link_ear.Music.Voting.{
  was_passed, was_rejected, is_queue_action, resolve_vote, ready_vote_waiting_for_queue,
}
use link_ear.Core.Samples.{pause_proposal, remove_proposal, playing, item, other_item, new_queue}
use link_ear.Music.Voting.Resolve.{resolve_vote_sound}
use link_ear.Music.Remote.{RemoteEvent, proposal, ballot, resolve, queue, cancel}
use link_ear.Prelude.Int.{pos}

abbrev ballot_for : VoteProposal → ActiveVote
ballot_for p = record {
  proposal = p;
  approvals = "bob" ∷ "alice" ∷ [];
  rejections = [];
  deadline = 9;
}

abbrev room : MusicState
room = record {
  queue = item ∷ other_item ∷ [];
  queue_version = 2;
  queue_updated_at = pos 30;
  playback_version = 3;
  active_vote = none;
  playback_phase = active playing;
}

abbrev pause_room : MusicState
pause_room = record (room) { active_vote = some (ballot_for pause_proposal) }

abbrev remove_room : MusicState
remove_room = record (room) { active_vote = some (ballot_for remove_proposal) }

abbrev events : List RemoteEvent
events =
    proposal pause_proposal 9
    ∷ ballot "v1" "bob" true
    ∷ queue new_queue
    ∷ cancel "s1"
    ∷ resolve 2 3
    ∷ []

resolve_vote_sound_example :
    ((resolve_vote pause_room 2 3).0 ≡ record pause_room { active_vote = none })
    × ((v : ActiveVote) × (pause_room.active_vote ≡ some v)
        × ((((was_passed pause_proposal) ≡ was_passed v.proposal)
              × (2 ≤ approval_count v)
              × (is_queue_action v.proposal.action ≡ true
                  → v.proposal.queue_version ≤ pause_room.queue_version))
            ⊎ (((was_passed pause_proposal) ≡ was_rejected v.proposal) × (approval_count v < 2))))
unfolding resolve_vote ready_vote_waiting_for_queue Vote.terminal_outcome Vote.approval_count
resolve_vote_sound_example = resolve_vote_sound pause_room 2 3 (was_passed pause_proposal) refl
