-- ===== src/Music/Voting.antt =====
-- src/music_state.rs: the vote in progress. Proposals, ballots, their resolution, and what makes a
-- vote stale.
pub mod Resolve
pub mod Stale
use link_ear.Prelude.{
  ℕ, ◌+◌, String, Bool, true, false, not, ◌&&◌, Option, none, some, List, [], ◌∷◌, ltb, leb,
  if◌then◌else◌, is_some, is_some_and, ◌==◌, ◌!=◌, string_eq, nat_eq, bool_eq, option_eq, length,
  any,
}
use link_ear.Prelude.Words.{Instant}
use link_ear.Prelude.Text.{display, concat}
use link_ear.Core.Types.{
  PeerId, PlaybackState, QueueItem, VoteAction, pause, resume, skip, seek, remove, move,
  VoteProposal, VoteView,
}
use link_ear.Core.Vote.{ActiveVote, VoteTerminalOutcome, pending, passed, rejected}
use link_ear.Core.Vote
use link_ear.Core.Clock.{format_duration_ms}
use link_ear.Music.State.{
  MusicState, VoteInvalidation, playback_state, playback_track_key, current_track_key,
}

pub data VoteCastOutcome : Type 0 where
  accepted duplicate : (vote_id : String) → VoteCastOutcome

pub data VoteResolution : Type 0 where
  was_passed was_rejected : VoteProposal → VoteResolution

-- `Result<(), &'static str>`.
pub data Received : Type 0 where
  ok : Received
  err : String → Received

-- The `matches!` on queue actions; the others act on the playback.
abbrev pub is_queue_action : VoteAction → Bool
is_queue_action (remove item_id) = true
is_queue_action (move item_id to_index) = true
is_queue_action _ = false

abbrev queue_reason : MusicState → VoteProposal → String → Option String
queue_reason m proposal item_id =
    if ltb proposal.queue_version m.queue_version
    then some "queue changed during vote"
    else if (proposal.queue_version == m.queue_version)
    then if not (any (λ (item : QueueItem). item.item_id == item_id) m.queue)
      then some "queue item is no longer available"
      else none
    else none

-- The session of the current state, if that has a track.
abbrev pub current_session : MusicState → Option String
current_session m = elim (playback_state m) [
  | none ↦ none
  | some s ↦ elim s.track [ none ↦ none | some track ↦ some s.session_id ]
]

abbrev playback_reason : MusicState → VoteProposal → Option String
playback_reason m proposal = elim (current_session m) [
  | none ↦ some "no active playback"
  | some session ↦
      if proposal.playback_session_id != some session
      then some "playback changed during vote"
      else none
]

abbrev reason_for : MusicState → VoteProposal → VoteAction → Option String
reason_for m proposal (remove item_id) = queue_reason m proposal item_id
reason_for m proposal (move item_id to_index) = queue_reason m proposal item_id
reason_for m proposal _ = playback_reason m proposal

unfoldable pub stale_vote_reason : MusicState → VoteProposal → Option String
unfolding playback_state
stale_vote_reason m proposal = reason_for m proposal proposal.action

unfoldable pub should_execute_vote_locally : MusicState → VoteProposal → PeerId → Bool
should_execute_vote_locally m proposal local_peer_id = not (is_some (stale_vote_reason m proposal))

unfoldable pub start_vote : MusicState → VoteProposal → Instant → MusicState
start_vote m proposal deadline = record m {
  active_vote = some (Vote.vote (Vote.new proposal deadline) proposal.proposer true).0;
}

unfoldable pub receive_vote_proposal : MusicState → VoteProposal → Instant → MusicState × Received
receive_vote_proposal m proposal deadline =
    if is_some m.active_vote
    then (m, err "another vote is active")
    else elim (stale_vote_reason m proposal) [
      | some reason ↦ (m, err reason)
      | none ↦ (
        record m {
          active_vote = some (Vote.vote (Vote.new proposal deadline) proposal.proposer true).0;
        },
        ok,
      )
    ]

unfoldable pub cast_vote : MusicState → String → Bool → MusicState × Option VoteCastOutcome
cast_vote m peer_id approve = elim m.active_vote [
  | none ↦ (m, none)
  | some v ↦
      let (w, counted) = Vote.vote v peer_id approve in
      let vote_id = v.proposal.vote_id in
      (
        record m { active_vote = some w },
        some (if counted then accepted vote_id else duplicate vote_id),
      )
]

unfoldable pub cast_vote_for : MusicState → String → String → Bool → MusicState × Bool
cast_vote_for m vote_id peer_id approve = elim m.active_vote [
  | none ↦ (m, false)
  | some v ↦
      if v.proposal.vote_id != vote_id
      then (m, false)
      else (let (w, counted) = Vote.vote v peer_id approve in
          (record m { active_vote = some w }, counted))
]

unfoldable pub ready_vote_waiting_for_queue : MusicState → ℕ → Option VoteProposal
ready_vote_waiting_for_queue m threshold = elim m.active_vote [
  | none ↦ none
  | some v ↦
      if ltb (Vote.approval_count v) threshold
      then none
      else if is_queue_action v.proposal.action && ltb m.queue_version v.proposal.queue_version
      then some v.proposal
      else none
]

unfoldable pub resolve_vote : MusicState → ℕ → ℕ → MusicState × Option VoteResolution
unfolding ready_vote_waiting_for_queue
resolve_vote m threshold eligible_peers = elim m.active_vote [
  | none ↦ (m, none)
  | some v ↦ elim (Vote.terminal_outcome v threshold eligible_peers) [
    | pending ↦ (m, none)
    | passed ↦
        if is_some (ready_vote_waiting_for_queue m threshold)
        then (m, none)
        else (record m { active_vote = none }, some (was_passed v.proposal))
    | rejected ↦ (record m { active_vote = none }, some (was_rejected v.proposal))
  ]
]

unfoldable pub take_timed_out_vote : MusicState → Instant → MusicState × Option ActiveVote
take_timed_out_vote m now =
    if is_some_and m.active_vote (λ v. leb v.deadline now)
    then (record m { active_vote = none }, m.active_vote)
    else (m, none)

-- `position`: the index of the first item with the id.
abbrev position_from : ℕ → List QueueItem → String → Option ℕ
position_from i [] item_id = none
position_from i (item ∷ items) item_id =
    let rest = position_from (i + 1) items item_id in
    if item.item_id == item_id then some i else rest

unfoldable pub describe_vote_action : VoteAction → List QueueItem → String
unfolding display concat format_duration_ms
describe_vote_action pause queue = "pause playback"
describe_vote_action resume queue = "resume playback"
describe_vote_action skip queue = "skip current track"
describe_vote_action (seek position_ms) queue =
    concat ("seek to " ∷ format_duration_ms position_ms ∷ [])
describe_vote_action (remove item_id) queue = elim (position_from 0 queue item_id) [
  | some index ↦ concat ("remove queue item #" ∷ display (index + 1) ∷ [])
  | none ↦ "remove queue item"
]
describe_vote_action (move item_id to_index) queue = elim (position_from 0 queue item_id) [
  | some index ↦
      concat ("move queue item #" ∷ display (index + 1) ∷ " to #" ∷ display (to_index + 1) ∷ [])
  | none ↦ concat ("move queue item to #" ∷ display (to_index + 1) ∷ [])
]

unfoldable pub vote_view : MusicState → ℕ → ℕ → String → Option VoteView
vote_view m threshold eligible_peers local_peer_id = elim m.active_vote [
  | none ↦ none
  | some v ↦ some (record {
    vote_id = v.proposal.vote_id;
    proposer = v.proposal.proposer;
    action_label = describe_vote_action v.proposal.action m.queue;
    approvals = length v.approvals;
    rejections = length v.rejections;
    threshold = threshold;
    eligible_peers = eligible_peers;
    pending = Vote.pending_count v eligible_peers;
    local_vote = Vote.local_vote v local_peer_id;
  })
]

abbrev vote_reason : MusicState → Option ActiveVote → Option String
vote_reason m none = none
vote_reason m (some v) =
    if is_queue_action v.proposal.action then stale_vote_reason m v.proposal else none

unfoldable pub invalidate_stale_queue_vote : MusicState → MusicState × Option VoteInvalidation
unfolding stale_vote_reason
invalidate_stale_queue_vote m = elim (vote_reason m m.active_vote) [
  | none ↦ (m, none)
  | some reason ↦ (record m { active_vote = none }, some (record { reason = reason }))
]

unfoldable pub invalidate_playback_vote : MusicState → String → MusicState × Option VoteInvalidation
invalidate_playback_vote m reason =
    if is_some_and m.active_vote (λ v. not (is_queue_action v.proposal.action))
    then (record m { active_vote = none }, some (record { reason = reason }))
    else (m, none)

-- `Option<(&str, &str)>` compared by its parts.
abbrev pub same_key : Option (String × String) → Option (String × String) → Bool
same_key none none = true
same_key none (some b) = false
same_key (some a) none = false
same_key (some (s, t)) (some (s', t')) = (s == s') && (t == t')

unfoldable pub invalidate_playback_vote_if_track_changes :
    MusicState → PlaybackState → MusicState × Option VoteInvalidation
unfolding current_track_key
invalidate_playback_vote_if_track_changes m next =
    if is_some_and m.active_vote (λ v.
      not (is_queue_action v.proposal.action)
      && not (same_key (current_track_key m) (playback_track_key next)))
    then (
      record m { active_vote = none },
      some (record { reason = "playback changed during vote" }),
    )
    else (m, none)
