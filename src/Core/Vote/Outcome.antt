-- ===== src/Core/Vote/Outcome.antt =====
-- src/core.rs: terminal_outcome of ActiveVote, against the ballots that may still come.
use link_ear.Prelude.{
  ℕ, ◌+◌, ◌≤◌, String, ◌≡◌, ap, Bool, true, false, List, [], ◌∷◌, ◌++◌, arith, string_eq, nat_eq,
  bool_eq, option_eq, length, length-append,
}
use link_ear.Prelude.Words.{u64_max}
use link_ear.Prelude.HashMap
use link_ear.Prelude.HashSet.{
  contains-append, Distinct-middle, HashSet, contains, insert, Distinct, is_subset,
  is_subset_middle, length-le_of_is_subset,
}
use link_ear.Core.Vote.{
  ActiveVote, pending, passed, rejected, vote, pending_count, terminal_outcome,
}
use link_ear.Core.Vote.Ballots.{Ballots, vote_all, voters, OneBallotEach, vote-OneBallotEach}

-- Every voter is one of the eligible peers.
abbrev pub From : HashSet String → ActiveVote → Type 0
From eligible v = is_subset (voters v) eligible ≡ true

vote-From :
    (eligible : HashSet String) (v : ActiveVote) (peer : String) (approve : Bool)
    → contains eligible peer ≡ true
    → From eligible v
    → From eligible (vote v peer approve).0
unfolding vote insert is_subset
vote-From eligible v peer approve m h =
    ground (arith, is_subset_middle v.approvals v.rejections eligible peer)

ballots_within :
    (eligible : HashSet String) (v : ActiveVote)
    → OneBallotEach v
    → From eligible v
    → length v.approvals + length v.rejections ≤ length eligible
ballots_within eligible v one from = omega (
  arith,
  length-append v.approvals v.rejections,
  length-le_of_is_subset (voters v) eligible one from,
)

passed_step :
    (v : ActiveVote) (peer : String) (approve : Bool) (t n : ℕ)
    → terminal_outcome v t n ≡ passed
    → terminal_outcome (vote v peer approve).0 t n ≡ passed
unfolding vote insert terminal_outcome
passed_step v peer approve t n h = ground arith

-- Once passed, a vote stays passed, whatever ballots follow.
pub passed_final :
    (v : ActiveVote) (bs : Ballots) (t n : ℕ)
    → terminal_outcome v t n ≡ passed
    → terminal_outcome (vote_all v bs) t n ≡ passed
passed_final v [] t n h = h
passed_final v ((peer, approve) ∷ bs) t n h =
    passed_final (vote v peer approve).0 bs t n (passed_step v peer approve t n h)

rejected_step :
    (eligible : HashSet String) (v : ActiveVote) (peer : String) (approve : Bool) (t : ℕ)
    → t ≤ u64_max
    → contains eligible peer ≡ true
    → OneBallotEach v
    → From eligible v
    → terminal_outcome v t (length eligible) ≡ rejected
    → terminal_outcome (vote v peer approve).0 t (length eligible) ≡ rejected
unfolding vote insert terminal_outcome
rejected_step eligible v peer approve t u m one from h = ground (
  arith,
  ballots_within eligible (vote v peer approve).0 (vote-OneBallotEach v peer approve one)
      (vote-From eligible v peer approve m from),
)

-- Let the threshold be a usize. Where the voters so far and all who follow are eligible peers, each with one ballot, a rejected vote
-- stays rejected: no further ballots can pass it.
pub rejected_final :
    (eligible : HashSet String) (v : ActiveVote) (bs : Ballots) (t : ℕ)
    → t ≤ u64_max
    → is_subset (HashMap.keys bs) eligible ≡ true
    → OneBallotEach v
    → From eligible v
    → terminal_outcome v t (length eligible) ≡ rejected
    → terminal_outcome (vote_all v bs) t (length eligible) ≡ rejected
unfolding is_subset
rejected_final eligible v [] t u m one from h = h
rejected_final eligible v ((peer, approve) ∷ bs) t u m one from h =
    let here : contains eligible peer ≡ true = ground arith in
    rejected_final eligible (vote v peer approve).0 bs t u (ground arith)
      (vote-OneBallotEach v peer approve one) (vote-From eligible v peer approve here from)
      (rejected_step eligible v peer approve t u here one from h)

abbrev pub approve_each : List String → Ballots
approve_each [] = []
approve_each (peer ∷ peers) = (peer, true) ∷ approve_each peers

vote_fresh :
    (v : ActiveVote) (peer : String)
    → contains (voters v) peer ≡ false
    → (vote v peer true).0 ≡ record v { approvals = peer ∷ v.approvals }
unfolding vote insert
vote_fresh v peer h = ground (arith, contains-append v.approvals v.rejections peer)

approve_each_count :
    (v : ActiveVote) (fresh : List String)
    → Distinct (fresh ++ voters v)
    → length (vote_all v (approve_each fresh)).approvals ≡ length v.approvals + length fresh
approve_each_count v [] d = omega arith
approve_each_count v (peer ∷ fresh) d =
    let unheard : contains (voters v) peer ≡ false =
      ground (arith, contains-append fresh (voters v) peer) in
    omega (
      arith,
      approve_each_count (record v { approvals = peer ∷ v.approvals }) fresh
          (Distinct-middle fresh (voters v) peer d.0 d.1),
      ap (λ w. length (vote_all w (approve_each fresh)).approvals) (vote_fresh v peer unheard),
    )

-- A pending vote is still open: as many approvals by fresh peers as ballots are pending pass it.
pub pending_can_pass :
    (v : ActiveVote) (fresh : List String) (t n : ℕ)
    → Distinct (fresh ++ voters v)
    → pending_count v n ≤ length fresh
    → terminal_outcome v t n ≡ pending
    → terminal_outcome (vote_all v (approve_each fresh)) t n ≡ passed
unfolding terminal_outcome
pending_can_pass v fresh t n d enough h = ground (arith, approve_each_count v fresh d)
