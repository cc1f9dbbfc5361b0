-- ===== src/Connection/Backoff/Attempts.antt =====
-- src/connection_state.rs: the pace of the attempts to promote a peer.
use link_ear.Prelude.{
  suc, ◌≤◌, ◌<◌, ◌≡◌, refl, ◌≢◌, ◌⊎◌, inl, inr, true, false, none, some, List, [], ◌∷◌, arith, ltb,
  if◌then◌else◌, Bool-cases, is_some_and, string_eq, nat_eq, bool_eq, option_eq,
}
use link_ear.Prelude.Words.{Instant, duration_since, from_secs, u32_max}
use link_ear.Connection.Backoff.{
  DirectPromotionBackoff, counted, duplicate, retry_interval, should_attempt, mark_attempt,
  mark_failure, direct_promotion_failure_dedup_window,
}

-- What may happen to a backoff that is not reset.
pub data Trial : Type 0 where
  attempt failure : (now : Instant) → Trial

-- An attempt is made only where `should_attempt` allows it.
abbrev pub step : DirectPromotionBackoff → Trial → DirectPromotionBackoff
step b (attempt now) = if should_attempt b now then mark_attempt b now else b
step b (failure now) = (mark_failure b now).0

abbrev pub run : DirectPromotionBackoff → List Trial → DirectPromotionBackoff
run b [] = b
run b (t ∷ ts) = run (step b t) ts

-- Two attempts are more than 30 seconds apart, more than 120 seconds from the third counted failure on
-- and more than 600 seconds from the sixth on, however the first attempt fails in between.
pub attempts_spaced :
    (b : DirectPromotionBackoff) (first failed now : Instant)
    → should_attempt (mark_failure (mark_attempt b first) failed).0 now ≡ true
    → let b' = (mark_failure (mark_attempt b first) failed).0 in
      (from_secs 30 < duration_since now first)
      × (3 ≤ b'.failures → from_secs 120 < duration_since now first)
      × (6 ≤ b'.failures → from_secs 600 < duration_since now first)
unfolding should_attempt mark_failure mark_attempt
attempts_spaced b first failed now h = ground arith

-- A failure is either a duplicate and leaves the number of failures, or counts once and names the interval
-- to the next attempt, if there is another. After a failure that counted, one less than five seconds later is a
-- duplicate. While an attempt is in flight there is no other.
pub failure_counts :
    (b : DirectPromotionBackoff) (now later : Instant)
    → b.failures < u32_max
    → let (b', outcome) = mark_failure b now in
      ((outcome ≡ duplicate) × (b'.failures ≡ b.failures)
        ⊎ ((outcome
              ≡ counted
                  (suc b.failures)
                  (if ltb (suc b.failures) 10 then some (retry_interval b') else none))
            × (b'.failures ≡ suc b.failures)))
      × (outcome ≢ duplicate
          → duration_since later now < from_secs 5
          → (mark_failure b' later).1 ≡ duplicate)
      × (should_attempt (mark_attempt b' now) later ≡ false)
unfolding mark_failure should_attempt mark_attempt
failure_counts b now later u =
    elim (Bool-cases (
      is_some_and b.last_failure
        (λ last. ltb (duration_since now last) direct_promotion_failure_dedup_window))) [
          | inl e ↦ (inl (ground arith), ground arith, refl)
          | inr e ↦ (inr (ground arith), ground arith, refl)
        ]

step_failures :
    (b : DirectPromotionBackoff) (t : Trial) → 10 ≤ b.failures → 10 ≤ (step b t).failures
unfolding mark_attempt mark_failure
step_failures b (attempt now) h = ground arith
step_failures b (failure now) h = ground arith

-- After ten counted failures no trial brings another attempt.
pub suspended_final :
    (b : DirectPromotionBackoff) (ts : List Trial) (now : Instant)
    → 10 ≤ b.failures
    → should_attempt (run b ts) now ≡ false
unfolding should_attempt
suspended_final b [] now h = ground arith
suspended_final b (t ∷ ts) now h = suspended_final (step b t) ts now (step_failures b t h)
