-- ===== src/Core/Vote/Tests.antt =====
-- src/core.rs: votes of three peers.
use link_ear.Prelude.{
  String, ◌≡◌, refl, true, false, [], ◌∷◌, arith, string_eq, nat_eq, bool_eq, option_eq, length,
}
use link_ear.Prelude.HashSet.{HashSet, contains, is_subset}
use link_ear.Core.Vote.{ActiveVote, vote, passed, rejected, pending_count, terminal_outcome}
use link_ear.Core.Vote.Ballots.{Ballots, vote_all}
use link_ear.Core.Samples.{pause_proposal}
use link_ear.Core.Vote.Outcome.{passed_final, rejected_final, pending_can_pass, approve_each}

abbrev peers : HashSet String
peers = "alice" ∷ "bob" ∷ "carol" ∷ []

abbrev fresh_vote : ActiveVote
fresh_vote = record { proposal = pause_proposal; approvals = []; rejections = []; deadline = 9 }

abbrev one_for : ActiveVote
one_for = record (fresh_vote) { approvals = "alice" ∷ [] }

abbrev two_for : ActiveVote
two_for = record (fresh_vote) { approvals = "bob" ∷ "alice" ∷ [] }

abbrev two_against : ActiveVote
two_against = record (fresh_vote) { rejections = "bob" ∷ "carol" ∷ [] }

abbrev ballots : Ballots
ballots = ("bob", false) ∷ ("alice", true) ∷ ("bob", true) ∷ []

-- A second ballot of the same peer is not counted.
second_ballot : (vote one_for "alice" false).1 ≡ false
unfolding vote contains
second_ballot = refl

is_closed : terminal_outcome two_against 2 3 ≡ rejected
unfolding terminal_outcome
is_closed = refl

rejected_final_example : terminal_outcome (vote_all two_against ballots) 2 (length peers) ≡ rejected
unfolding is_subset contains
rejected_final_example =
    rejected_final peers two_against ballots 2 (omega arith) refl (refl, (refl, tt)) refl is_closed

passed_final_example : terminal_outcome (vote_all two_for ballots) 2 3 ≡ passed
unfolding terminal_outcome
passed_final_example = passed_final two_for ballots 2 3 refl

pending_can_pass_example :
    terminal_outcome (vote_all one_for (approve_each ("bob" ∷ "carol" ∷ []))) 2 3 ≡ passed
unfolding contains pending_count terminal_outcome
pending_can_pass_example =
    pending_can_pass one_for ("bob" ∷ "carol" ∷ []) 2 3 (refl, (refl, (refl, tt))) (omega arith)
      refl
