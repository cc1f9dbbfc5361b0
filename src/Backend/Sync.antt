-- ===== src/Backend/Sync.antt =====
-- src/backend.rs: how a peer asks another one for its chat history.
use link_ear.Prelude.{
  ℕ, String, ◌≡◌, refl, ap, ◌∙◌, inl, inr, Bool, true, false, ◌&&◌, Option, none, some, List, [],
  ◌∷◌, arith, ltb, leb, if◌then◌else◌, Bool-cases, is_none_or, ◌==◌, ◌!=◌, string_eq, nat_eq,
  bool_eq, option_eq, beq_refl, length,
}
use link_ear.Prelude.HashMap
use link_ear.Prelude.HashMap.{HashMap}
use link_ear.Prelude.HashSet.{HashSet}
use link_ear.Prelude.Words.{Duration, Instant, duration_since}
use link_ear.Prelude.Int.{ℤ, ltb_ℤ}
use link_ear.Core.Types.{ChatRecord, PeerId}
use link_ear.Core.Clock.{normalize_timestamp_micros}
use link_ear.Backend.History.{receive_records}

abbrev pub history_request_cooldown : Duration
history_request_cooldown = 5_000_000_000

abbrev pub queue_request_cooldown : Duration
queue_request_cooldown = 5_000_000_000

-- `Iterator::max`.
abbrev newest_from : Option ℤ → List ChatRecord → Option ℤ
newest_from newest [] = newest
newest_from none (r ∷ rs) = newest_from (some (normalize_timestamp_micros r.sent_at)) rs
newest_from (some newest) (r ∷ rs) =
    let at = normalize_timestamp_micros r.sent_at in
    newest_from (some (if ltb_ℤ at newest then newest else at)) rs

unfoldable pub history_newest_at : List ChatRecord → Option ℤ
history_newest_at history = newest_from none history

abbrev pub newer_than : ℕ → ℤ → Option ℤ → Bool
newer_than remote_count remote_newest_at none = ltb 0 remote_count
newer_than remote_count remote_newest_at (some local_newest_at) =
    ltb_ℤ local_newest_at remote_newest_at

unfoldable pub history_summary_is_newer : List ChatRecord → ℕ → Option ℤ → Bool
unfolding history_newest_at normalize_timestamp_micros
history_summary_is_newer history remote_count remote_newest_at =
    if ltb (length history) remote_count then true else elim remote_newest_at [
      | none ↦ false
      | some newest ↦
          newer_than remote_count (normalize_timestamp_micros newest) (history_newest_at history)
    ]

unfoldable pub should_request_history : HashMap String Instant → String → Instant → Bool
unfolding HashMap.get
should_request_history history_request_times peer_id now =
    is_none_or (HashMap.get history_request_times peer_id)
      (λ last. leb history_request_cooldown (duration_since now last))

unfoldable pub should_request_queue : HashMap String Instant → String → Instant → Bool
unfolding HashMap.get
should_request_queue queue_request_times peer_id now =
    is_none_or (HashMap.get queue_request_times peer_id)
      (λ last. leb queue_request_cooldown (duration_since now last))

-- The arms of `apply_wire_message`. A summary is answered with a request, which has the own count.
unfoldable pub on_history_summary :
    List ChatRecord → HashMap String Instant → PeerId → String → ℕ → Option ℤ → Instant → Option ℕ
unfolding history_summary_is_newer should_request_history
on_history_summary history history_request_times local_peer_id peer_id count newest_at now =
    if (peer_id != local_peer_id)
      && (history_summary_is_newer history count newest_at
          && should_request_history history_request_times peer_id now)
    then some (length history)
    else none

-- A request is answered with the whole history.
unfoldable pub on_history_request :
    List ChatRecord → PeerId → String → String → ℕ → Option (List ChatRecord)
on_history_request history local_peer_id requester target known_count =
    if (target == local_peer_id)
      && ((requester != local_peer_id) && ltb known_count (length history))
    then some history
    else none

unfoldable pub on_history_response :
    List ChatRecord
    → HashSet String
    → PeerId
    → Option String
    → List ChatRecord
    → List ChatRecord × HashSet String
on_history_response history seen_messages local_peer_id target messages =
    if is_none_or target (λ t. t == local_peer_id)
    then receive_records history seen_messages messages
    else (history, seen_messages)

-- The time in the summary of a history: that of its last record.
unfoldable pub summary_newest_at : List ChatRecord → Option ℤ
unfolding normalize_timestamp_micros
summary_newest_at [] = none
summary_newest_at (r ∷ []) = some (normalize_timestamp_micros r.sent_at)
summary_newest_at (r ∷ s ∷ rs) = summary_newest_at (s ∷ rs)

abbrev answer_to : List ChatRecord → PeerId → PeerId → Option ℕ → Option (List ChatRecord)
answer_to theirs my_id their_id none = none
answer_to theirs my_id their_id (some known_count) =
    on_history_request theirs their_id my_id their_id known_count

-- What the summary of another peer's history brings from it.
abbrev pub exchange :
    List ChatRecord
    → List ChatRecord
    → HashMap String Instant
    → PeerId
    → PeerId
    → Instant
    → Option (List ChatRecord)
exchange mine theirs history_request_times my_id their_id now = answer_to theirs my_id their_id (
    on_history_summary mine history_request_times my_id their_id (length theirs)
      (summary_newest_at theirs) now)

asked_if_newer :
    (mine : List ChatRecord) (times : HashMap String Instant) (my_id their_id : PeerId) (count : ℕ)
    (newest_at : Option ℤ) (now : Instant)
    → (my_id == their_id) ≡ false
    → should_request_history times their_id now ≡ true
    → on_history_summary mine times my_id their_id count newest_at now
      ≡ (if history_summary_is_newer mine count newest_at then some (length mine) else none)
unfolding on_history_summary
asked_if_newer mine times my_id their_id count newest_at now other ask =
    ground (arith, string_eq.beq_iff my_id their_id, string_eq.beq_iff their_id my_id)

longer_is_newer :
    (mine : List ChatRecord) (count : ℕ) (newest_at : Option ℤ)
    → ltb (length mine) count ≡ true
    → history_summary_is_newer mine count newest_at ≡ true
unfolding history_summary_is_newer
longer_is_newer mine count newest_at l = rw (l, if◌then◌else◌) refl

answered_if_longer :
    (mine theirs : List ChatRecord) (my_id their_id : PeerId)
    → (my_id == their_id) ≡ false
    → on_history_request theirs their_id my_id their_id (length mine)
      ≡ (if ltb (length mine) (length theirs) then some theirs else none)
unfolding on_history_request
answered_if_longer mine theirs my_id their_id other = ground (arith, beq_refl their_id, other)

-- Unless it was asked a short time ago, the summary of another peer's history brings this history exactly
-- where it is the longer one, and otherwise nothing: a request that is sent because the other peer has the
-- newer record is not answered if its history is no longer than one's own.
pub exchange_lem :
    (mine theirs : List ChatRecord) (times : HashMap String Instant) (my_id their_id : PeerId)
    (now : Instant)
    → (my_id == their_id) ≡ false
    → should_request_history times their_id now ≡ true
    → exchange mine theirs times my_id their_id now
      ≡ (if ltb (length mine) (length theirs) then some theirs else none)
exchange_lem mine theirs times my_id their_id now other ask =
    let newest_at = summary_newest_at theirs in
    let sent = history_summary_is_newer mine (length theirs) newest_at in
    let answer = answered_if_longer mine theirs my_id their_id other in
    let asked = asked_if_newer mine times my_id their_id (length theirs) newest_at now other ask in
    elim (Bool-cases sent) [
      | inl y ↦
          ap (answer_to theirs my_id their_id)
            (asked ∙ ap (λ b. if b then some (length mine) else none) y)
          ∙ answer
      | inr n ↦
          ap (answer_to theirs my_id their_id)
            (asked ∙ ap (λ b. if b then some (length mine) else none) n)
          ∙ ground (arith, n, longer_is_newer mine (length theirs) newest_at)
    ]
