-- ===== src/Music/Voting/Stale.antt =====
-- src/music_state.rs: proposals are received and kept only while they fit the queue and the playback.
use link_ear.Prelude.{
  ℕ, String, ◌≡◌, ◌≢◌, ◌↔◌, Bool, true, Option, none, some, arith, if◌then◌else◌, ◌==◌, string_eq,
  nat_eq, bool_eq, option_eq,
}
use link_ear.Prelude.Words.{Instant}
use link_ear.Core.Types.{VoteProposal}
use link_ear.Core.Vote.{ActiveVote}
use link_ear.Core.Vote
use link_ear.Prelude.HashSet.{contains}
use link_ear.Music.State.{MusicState}
use link_ear.Music.Voting.{
  ok, stale_vote_reason, receive_vote_proposal, cast_vote_for, resolve_vote,
}

-- Why the vote in progress is stale, if it is.
abbrev pub active_reason : MusicState → Option String
active_reason m = elim m.active_vote [ none ↦ none | some v ↦ stale_vote_reason m v.proposal ]

-- The vote in progress, if any, is not stale.
abbrev pub IsFresh : MusicState → Type 0
IsFresh m = active_reason m ≡ none

-- A proposal is accepted exactly when there is no vote in progress and it is not stale. It is then the
-- vote in progress, with the proposer's approval as its only ballot, and otherwise nothing changes.
pub receive_vote_proposal_lem :
    (m : MusicState) (p : VoteProposal) (deadline : Instant)
    → let (m', received) = receive_vote_proposal m p deadline in
      ((received ≡ ok) ↔ ((m.active_vote ≡ none) × (stale_vote_reason m p ≡ none)))
      × (received ≢ ok → m' ≡ m)
      × (received ≡ ok
          → (v : ActiveVote) × (m' ≡ record m { active_vote = some v })
            × (v.proposal ≡ p)
            × (v.deadline ≡ deadline)
            × ((peer : String)
                → Vote.local_vote v peer ≡ (if p.proposer == peer then some true else none)))
unfolding receive_vote_proposal Vote.vote Vote.new Vote.local_vote contains
receive_vote_proposal_lem m p deadline = (
  ((λ h. (ground arith, ground arith)), (λ h. ground arith)),
  (λ h. ground arith),
  (λ h. (
    (Vote.vote (Vote.new p deadline) p.proposer true).0,
    ground arith,
    ground arith,
    ground arith,
    (λ peer. ground arith),
  )),
)

pub receive-IsFresh :
    (m : MusicState) (p : VoteProposal) (deadline : Instant)
    → IsFresh m
    → IsFresh (receive_vote_proposal m p deadline).0
unfolding receive_vote_proposal stale_vote_reason Vote.vote Vote.new
receive-IsFresh m p deadline h = ground arith

pub cast-IsFresh :
    (m : MusicState) (vote_id peer : String) (approve : Bool)
    → IsFresh m
    → IsFresh (cast_vote_for m vote_id peer approve).0
unfolding cast_vote_for stale_vote_reason Vote.vote
cast-IsFresh m vote_id peer approve h = ground arith

pub resolve-IsFresh :
    (m : MusicState) (threshold eligible : ℕ)
    → IsFresh m
    → IsFresh (resolve_vote m threshold eligible).0
unfolding resolve_vote stale_vote_reason
resolve-IsFresh m threshold eligible h = ground arith
