-- ===== src/Core/Vote/Ballots.antt =====
-- src/core.rs: the ballots of ActiveVote. A peer has one ballot, its first.
use link_ear.Prelude.{
  ◌+◌, String, ◌≡◌, Bool, not, ◌&&◌, Option, none, some, List, [], ◌∷◌, ◌++◌, arith, if◌then◌else◌,
  is_some, ◌==◌, string_eq, nat_eq, bool_eq, option_eq,
}
use link_ear.Prelude.Words.{Instant}
use link_ear.Prelude.HashMap
use link_ear.Prelude.HashSet.{
  contains, insert, contains-insert, Distinct, contains-append, Distinct-middle,
}
use link_ear.Core.Types.{VoteProposal}
use link_ear.Core.Vote.{ActiveVote, new, vote, local_vote, approval_count, rejection_count}

-- The ballots that arrive, in order: the voter, and whether it approves.
abbrev pub Ballots : Type 0
Ballots = List (String × Bool)

abbrev pub vote_all : ActiveVote → Ballots → ActiveVote
vote_all v [] = v
vote_all v ((peer, approve) ∷ bs) = vote_all (vote v peer approve).0 bs

abbrev pub voters : ActiveVote → List String
voters v = v.approvals ++ v.rejections

abbrev or_else : Option Bool → Option Bool → Option Bool
or_else none b = b
or_else (some a) b = some a

local_vote-vote :
    (v : ActiveVote) (peer : String) (approve : Bool) (a : String)
    → local_vote (vote v peer approve).0 a
      ≡ or_else (local_vote v a) (if peer == a then some approve else none)
unfolding local_vote vote
local_vote-vote v peer approve a = ground (
  arith,
  contains-insert v.approvals peer a,
  contains-insert v.rejections peer a,
  string_eq.beq_iff peer a,
)

local_vote-vote_all :
    (v : ActiveVote) (bs : Ballots) (a : String)
    → local_vote (vote_all v bs) a ≡ or_else (local_vote v a) (HashMap.get bs a)
unfolding HashMap.get
local_vote-vote_all v [] a = ground arith
local_vote-vote_all v ((peer, approve) ∷ bs) a =
    ground
      (arith, local_vote-vote v peer approve a, local_vote-vote_all (vote v peer approve).0 bs a)

-- After any ballots, a peer's vote is its first ballot, and a peer with no ballot has no vote: later
-- ballots of a peer change nothing.
pub local_vote-first_ballot :
    (p : VoteProposal) (d : Instant) (bs : Ballots) (peer : String)
    → local_vote (vote_all (new p d) bs) peer ≡ HashMap.get bs peer
unfolding local_vote new contains
local_vote-first_ballot p d bs peer = local_vote-vote_all (new p d) bs peer

-- No peer is listed twice, neither in one of the two sets nor in both.
abbrev pub OneBallotEach : ActiveVote → Type 0
OneBallotEach v = Distinct (voters v)

pub vote-OneBallotEach :
    (v : ActiveVote) (peer : String) (approve : Bool)
    → OneBallotEach v
    → OneBallotEach (vote v peer approve).0
unfolding vote insert
vote-OneBallotEach v peer approve h = ground (
  arith,
  contains-append v.approvals v.rejections peer,
  Distinct-middle v.approvals v.rejections peer,
)

-- If no peer is listed twice, neither in one of the two sets nor in both, the same holds after any
-- ballots.
pub vote_all-OneBallotEach :
    (v : ActiveVote) (bs : Ballots) → OneBallotEach v → OneBallotEach (vote_all v bs)
vote_all-OneBallotEach v [] h = h
vote_all-OneBallotEach v ((peer, approve) ∷ bs) h =
    vote_all-OneBallotEach (vote v peer approve).0 bs (vote-OneBallotEach v peer approve h)

-- A ballot is refused exactly when its peer has voted before; it then changes nothing, and otherwise
-- raises the count of its side by one and leaves the other.
pub vote_counts :
    (v : ActiveVote) (peer : String) (approve : Bool)
    → let (w, accepted) = vote v peer approve in
      (accepted ≡ not (is_some (local_vote v peer)))
      × (approval_count w ≡ approval_count v + (if accepted && approve then 1 else 0))
      × (rejection_count w ≡ rejection_count v + (if accepted && not approve then 1 else 0))
unfolding vote insert local_vote approval_count rejection_count
vote_counts v peer approve = ground arith
