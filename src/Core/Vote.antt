-- ===== src/Core/Vote.antt =====
-- src/core.rs: ActiveVote, the ballots of the vote in progress.
pub mod Ballots
pub mod Outcome
mod Tests
use link_ear.Prelude.{
  ℕ, ◌+◌, ◌-◌, String, Bool, true, false, ◌||◌, Option, none, some, ltb, leb, if◌then◌else◌,
  string_eq, nat_eq, bool_eq, option_eq,
}
use link_ear.Prelude.Words.{Instant, saturating_add_u64}
use link_ear.Prelude.HashSet
use link_ear.Prelude.HashSet.{HashSet}
use link_ear.Core.Types.{VoteProposal}

pub record ActiveVote : Type 0 where
  pub proposal : VoteProposal
  pub approvals : HashSet String
  pub rejections : HashSet String
  pub deadline : Instant

pub data VoteTerminalOutcome : Type 0 where
  pending passed rejected : VoteTerminalOutcome

unfoldable pub new : VoteProposal → Instant → ActiveVote
new proposal deadline = record {
  proposal = proposal;
  approvals = HashSet.new;
  rejections = HashSet.new;
  deadline = deadline;
}

unfoldable pub vote : ActiveVote → String → Bool → ActiveVote × Bool
unfolding HashSet.insert
vote v peer_id approve =
    if HashSet.contains v.approvals peer_id || HashSet.contains v.rejections peer_id
    then (v, false)
    else if approve
    then (let (peers, added) = HashSet.insert v.approvals peer_id in
        (record v { approvals = peers }, added))
    else (let (peers, added) = HashSet.insert v.rejections peer_id in
        (record v { rejections = peers }, added))

unfoldable pub approval_count : ActiveVote → ℕ
approval_count v = HashSet.len v.approvals

unfoldable pub rejection_count : ActiveVote → ℕ
rejection_count v = HashSet.len v.rejections

unfoldable pub local_vote : ActiveVote → String → Option Bool
local_vote v peer_id =
    if HashSet.contains v.approvals peer_id
    then some true
    else if HashSet.contains v.rejections peer_id
    then some false
    else none

-- `saturating_sub`.
unfoldable pub pending_count : ActiveVote → ℕ → ℕ
pending_count v eligible_peers =
    eligible_peers - (HashSet.len v.approvals + HashSet.len v.rejections)

unfoldable pub terminal_outcome : ActiveVote → ℕ → ℕ → VoteTerminalOutcome
unfolding pending_count
terminal_outcome v threshold eligible_peers =
    if leb threshold (HashSet.len v.approvals)
    then passed
    else if ltb (saturating_add_u64 (HashSet.len v.approvals) (pending_count v eligible_peers))
        threshold
    then rejected
    else pending
