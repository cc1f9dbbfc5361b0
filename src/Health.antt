-- ===== src/Health.antt =====
-- src/playback_health.rs: whether a majority of the peers still has enough of the track buffered, and
-- when the loss of that majority is reported.
pub mod Loss
pub mod Publish
mod Tests
use link_ear.Prelude.{
  ℕ, min, String, ◌≡◌, Bool, true, false, not, ◌&&◌, ◌||◌, Option, none, some, arith, ltb, leb,
  if◌then◌else◌, is_some_and, is_none_or, ◌==◌, string_eq, nat_eq, bool_eq, option_eq, count_if,
}
use link_ear.Prelude.Words.{
  Duration, Instant, duration_since, as_millis, saturating_add_u64, u64_max,
}
use link_ear.Prelude.HashSet
use link_ear.Prelude.HashSet.{HashSet}
use link_ear.Prelude.HashMap
use link_ear.Prelude.HashMap.{HashMap}
use link_ear.Core.Types.{PlaybackBufferStatusKind, ready}
use link_ear.Music.State.{majority_threshold}
use link_ear.Buffer.Operation.{same_kind}

pub record PlaybackHealthStatus : Type 0 where
  pub status : PlaybackBufferStatusKind
  pub buffered_until_ms : Option ℕ
  pub updated_at : Instant

pub record PlaybackHealth : Type 0 where
  pub session_id : Option String
  pub statuses : HashMap String PlaybackHealthStatus
  pub published_statuses : HashMap String PlaybackHealthStatus
  pub loss_since : Option Instant
  pub paused_for_loss : Bool

pub data PlaybackHealthDecision : Type 0 where
  stable majority_lost : (healthy threshold : ℕ) → PlaybackHealthDecision

unfoldable pub new : PlaybackHealth
new = record {
  session_id = none;
  statuses = HashMap.new;
  published_statuses = HashMap.new;
  loss_since = none;
  paused_for_loss = false;
}

unfoldable pub reset_session : PlaybackHealth → String → PlaybackHealth
reset_session h session_id = if h.session_id == some session_id then h else record {
  session_id = some session_id;
  statuses = HashMap.new;
  published_statuses = HashMap.new;
  loss_since = none;
  paused_for_loss = false;
}

pub reset_session_same :
    (h : PlaybackHealth) (session_id : String)
    → h.session_id ≡ some session_id
    → reset_session h session_id ≡ h
unfolding reset_session
reset_session_same h session_id e = ground (arith, string_eq.beq_iff session_id session_id)

unfoldable pub clear : PlaybackHealth → PlaybackHealth
clear h = record {
  session_id = none;
  statuses = HashMap.new;
  published_statuses = HashMap.new;
  loss_since = none;
  paused_for_loss = false;
}

unfoldable pub mark_status :
    PlaybackHealth
    → String
    → String
    → PlaybackBufferStatusKind
    → Option ℕ
    → Instant
    → PlaybackHealth
unfolding reset_session
mark_status h session_id peer_id status buffered_until_ms now =
    let h' = reset_session h session_id in
    record h' {
      statuses =
          HashMap.insert h'.statuses peer_id
            (record { status = status; buffered_until_ms = buffered_until_ms; updated_at = now });
    }

-- `zip(..).is_none_or(|(previous, next)| next > previous)`.
abbrev buffer_advanced : Option ℕ → Option ℕ → Bool
buffer_advanced (some previous) (some next) = ltb previous next
buffer_advanced _ _ = true

abbrev pub worth_publishing :
    PlaybackHealthStatus → PlaybackHealthStatus → Instant → Duration → Bool
worth_publishing previous next now min_interval =
    not (same_kind previous.status next.status)
    || (leb min_interval (duration_since now previous.updated_at)
        && buffer_advanced previous.buffered_until_ms next.buffered_until_ms)

-- The last parameter of the source is not used.
unfoldable pub mark_local_status_for_publish :
    PlaybackHealth
    → String
    → String
    → PlaybackBufferStatusKind
    → Option ℕ
    → Instant
    → Duration
    → ℕ
    → PlaybackHealth × Bool
unfolding reset_session
mark_local_status_for_publish h session_id peer_id status buffered_until_ms now min_interval
      min_buffer_advance_ms =
    let h' = reset_session h session_id in
    let next : PlaybackHealthStatus = record {
      status = status;
      buffered_until_ms = buffered_until_ms;
      updated_at = now;
    } in
    let should_publish =
      is_none_or (HashMap.get h'.published_statuses peer_id)
        (λ previous. worth_publishing previous next now min_interval) in
    (
      record h' {
        statuses = HashMap.insert h'.statuses peer_id next;
        published_statuses =
            if should_publish
            then HashMap.insert h'.published_statuses peer_id next
            else h'.published_statuses;
      },
      should_publish,
    )

abbrev is_ready_kind : PlaybackBufferStatusKind → Bool
is_ready_kind ready = true
is_ready_kind _ = false

unfoldable pub is_healthy : PlaybackHealthStatus → ℕ → Instant → Duration → Bool
is_healthy s playback_position_ms now stale_after =
    if not (is_ready_kind s.status) then false else elim s.buffered_until_ms [
      | none ↦ false
      | some buffered_until ↦
          if ltb buffered_until playback_position_ms
          then false
          else if leb (duration_since now s.updated_at) stale_after
          then true
          else leb (saturating_add_u64 playback_position_ms (min (as_millis stale_after) u64_max))
              buffered_until
    ]

unfoldable pub healthy_count : PlaybackHealth → HashSet String → ℕ → Instant → Duration → ℕ
unfolding is_healthy
healthy_count h expected_peers playback_position_ms now stale_after =
    count_if
      (λ peer_id.
        is_some_and (HashMap.get h.statuses peer_id)
          (λ s. is_healthy s playback_position_ms now stale_after))
      expected_peers

unfoldable pub decide :
    PlaybackHealth → ℕ → ℕ → Instant → Duration → PlaybackHealth × PlaybackHealthDecision
decide h healthy threshold now loss_grace =
    if leb threshold healthy
    then (record h { loss_since = none; paused_for_loss = false }, stable healthy threshold)
    else (let since : Instant = elim h.loss_since [ none ↦ now | some t ↦ t ] in
        let h' = record h { loss_since = some since } in
        if h.paused_for_loss || ltb (duration_since now since) loss_grace
        then (h', stable healthy threshold)
        else (record h' { paused_for_loss = true }, majority_lost healthy threshold))

unfoldable pub evaluate :
    PlaybackHealth
    → String
    → HashSet String
    → ℕ
    → Instant
    → Duration
    → Duration
    → PlaybackHealth × PlaybackHealthDecision
evaluate h session_id expected_peers playback_position_ms now loss_grace stale_after =
    let h' = reset_session h session_id in
    decide h' (healthy_count h' expected_peers playback_position_ms now stale_after)
      (majority_threshold (HashSet.len expected_peers)) now loss_grace
