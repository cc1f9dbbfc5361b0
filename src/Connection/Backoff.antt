-- ===== src/Connection/Backoff.antt =====
-- src/connection_state.rs: how long the promotion of a peer waits between attempts, and when it gives
-- up.
pub mod Attempts
use link_ear.Prelude.{
  ℕ, ◌-◌, ◌/◌, ◌%◌, String, Bool, true, false, not, ◌&&◌, Option, none, some, [], ◌∷◌, ltb, leb,
  if◌then◌else◌, is_some, is_some_and, string_eq, nat_eq, bool_eq, option_eq,
}
use link_ear.Prelude.Words.{
  Duration, Instant, duration_since, from_secs, as_secs, saturating_add_u32,
}
use link_ear.Prelude.Text.{display, concat}

abbrev pub direct_promotion_retry_interval : Duration
direct_promotion_retry_interval = from_secs 30

abbrev pub direct_promotion_medium_retry_interval : Duration
direct_promotion_medium_retry_interval = from_secs 120

abbrev pub direct_promotion_slow_retry_interval : Duration
direct_promotion_slow_retry_interval = from_secs 600

abbrev pub direct_promotion_medium_retry_failures : ℕ
direct_promotion_medium_retry_failures = 3

abbrev pub direct_promotion_slow_retry_failures : ℕ
direct_promotion_slow_retry_failures = 6

abbrev pub direct_promotion_max_failures : ℕ
direct_promotion_max_failures = 10

abbrev pub direct_promotion_failure_dedup_window : Duration
direct_promotion_failure_dedup_window = from_secs 5

pub record DirectPromotionBackoff : Type 0 where
  pub attempts : ℕ
  pub failures : ℕ
  pub last_attempt : Option Instant
  pub last_failure : Option Instant
  pub in_flight : Bool
  pub suspended_reported : Bool

unfoldable pub default : DirectPromotionBackoff
default = record {
  attempts = 0;
  failures = 0;
  last_attempt = none;
  last_failure = none;
  in_flight = false;
  suspended_reported = false;
}

pub data DirectPromotionFailureOutcome : Type 0 where
  counted : (failures : ℕ) → (retry_after : Option Duration) → DirectPromotionFailureOutcome
  duplicate : DirectPromotionFailureOutcome

unfoldable pub retry_interval : DirectPromotionBackoff → Duration
retry_interval b =
    if ltb b.failures direct_promotion_medium_retry_failures
    then direct_promotion_retry_interval
    else if ltb b.failures direct_promotion_slow_retry_failures
    then direct_promotion_medium_retry_interval
    else direct_promotion_slow_retry_interval

-- `Duration::checked_sub`.
abbrev pub checked_sub : Duration → Duration → Option Duration
checked_sub a b = if leb b a then some (a - b) else none

unfoldable pub retry_remaining : DirectPromotionBackoff → Instant → Option Duration
unfolding retry_interval
retry_remaining b now = elim b.last_attempt [
  | none ↦ none
  | some last_attempt ↦ checked_sub (retry_interval b) (duration_since now last_attempt)
]

unfoldable pub should_attempt : DirectPromotionBackoff → Instant → Bool
unfolding retry_remaining
should_attempt b now =
    not b.in_flight
    && ltb b.failures direct_promotion_max_failures
    && not (is_some (retry_remaining b now))

unfoldable pub mark_attempt : DirectPromotionBackoff → Instant → DirectPromotionBackoff
mark_attempt b now = record b {
  attempts = saturating_add_u32 b.attempts 1;
  last_attempt = some now;
  in_flight = true;
}

unfoldable pub mark_failure :
    DirectPromotionBackoff → Instant → DirectPromotionBackoff × DirectPromotionFailureOutcome
unfolding retry_interval
mark_failure b now =
    if is_some_and b.last_failure
      (λ last. ltb (duration_since now last) direct_promotion_failure_dedup_window)
    then (record b { in_flight = false }, duplicate)
    else (let b' = record b {
      in_flight = false;
      last_failure = some now;
      failures = saturating_add_u32 b.failures 1;
      suspended_reported = false;
    } in
        (
          b',
          counted b'.failures (
              if ltb b'.failures direct_promotion_max_failures
              then some (retry_interval b')
              else none),
        ))

unfoldable pub format_retry_duration : Duration → String
unfolding display concat
format_retry_duration duration =
    let seconds = as_secs duration in
    if ltb seconds 60
    then concat (display seconds ∷ "s" ∷ [])
    else (let minutes = seconds / 60 in
        let rest = seconds % 60 in
        if nat_eq.beq rest 0
        then concat (display minutes ∷ "m" ∷ [])
        else concat (display minutes ∷ "m " ∷ display rest ∷ "s" ∷ []))
