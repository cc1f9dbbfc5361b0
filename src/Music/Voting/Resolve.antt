-- ===== src/Music/Voting/Resolve.antt =====
-- src/music_state.rs: the resolution of the vote in progress.
use link_ear.Prelude.{
  ℕ, ◌≤◌, ◌<◌, ◌≡◌, ◌⊎◌, inl, inr, true, none, some, List, arith, Option-cases, string_eq, nat_eq,
  bool_eq, option_eq,
}
use link_ear.Core.Types.{VoteProposal, QueueItem}
use link_ear.Core.Vote.{ActiveVote, terminal_outcome, approval_count}
use link_ear.Music.State.{MusicState}
use link_ear.Music.Voting.{
  VoteResolution, was_passed, was_rejected, is_queue_action, resolve_vote,
  ready_vote_waiting_for_queue,
}

no_vote :
    (m : MusicState) (threshold eligible : ℕ) (r : VoteResolution)
    → m.active_vote ≡ none
    → (resolve_vote m threshold eligible).1 ≡ some r
    → ⊥
unfolding resolve_vote
no_vote m threshold eligible r e h = ground arith

-- When a vote resolves, it is the vote in progress, which is then over, and nothing else changes. A
-- vote that passes has as many approvals as the threshold, and if it acts on the queue the queue is at
-- least as new as the one that the proposer saw. A vote that is rejected has too few approvals.
pub resolve_vote_sound :
    (m : MusicState) (threshold eligible : ℕ) (r : VoteResolution)
    → (resolve_vote m threshold eligible).1 ≡ some r
    → ((resolve_vote m threshold eligible).0 ≡ record m { active_vote = none })
      × ((v : ActiveVote) × (m.active_vote ≡ some v)
          × (((r ≡ was_passed v.proposal)
                × (threshold ≤ approval_count v)
                × (is_queue_action v.proposal.action ≡ true
                    → v.proposal.queue_version ≤ m.queue_version))
              ⊎ ((r ≡ was_rejected v.proposal) × (approval_count v < threshold))))
unfolding resolve_vote terminal_outcome approval_count
resolve_vote_sound m threshold eligible r h = elim (Option-cases m.active_vote) [
  | inl e ↦ absurd (no_vote m threshold eligible r e h)
  | inr (v, e) ↦ (ground arith, (v, e, ground arith))
]

-- A vote with enough approvals that waits for a newer queue does not resolve, and nothing changes; it
-- passes as soon as the queue has the version that it waits for, whatever the queue holds by then.
pub waiting_vote_passes :
    (m : MusicState) (threshold eligible version : ℕ) (queue : List QueueItem) (p : VoteProposal)
    → ready_vote_waiting_for_queue m threshold ≡ some p
    → p.queue_version ≤ version
    → (resolve_vote m threshold eligible ≡ (m, none))
      × ((resolve_vote (record m { queue_version = version; queue = queue }) threshold eligible).1
          ≡ some (was_passed p))
unfolding resolve_vote ready_vote_waiting_for_queue terminal_outcome approval_count
waiting_vote_passes m threshold eligible version queue p h w = (ground arith, ground arith)
