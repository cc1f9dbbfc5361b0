-- ===== src/Player/Retry.antt =====
-- src/player.rs: requests for media that are sent again when they fail.
pub mod Bounded
use link_ear.Prelude.{
  ℕ, zero, suc, ◌+◌, ◌/◌, ◌%◌, ◌^◌, min, String, Bool, not, ◌&&◌, ◌||◌, Option, none, some, List,
  [], ◌∷◌, ltb, leb, if◌then◌else◌, ◌==◌, string_eq, nat_eq, bool_eq, option_eq,
}
use link_ear.Prelude.Words.{saturating_mul_u64, Duration, from_millis}
use link_ear.Prelude.Text.{display, concat}
use link_ear.MediaCache.{ByteRange}
use link_ear.MediaCache.Headers.{RangeProbe}
use link_ear.MediaCache.Fetch.{
  MediaRangeError, request, http_status, unsupported_range, read, unexpected_length, status,
  range_of, Fetched, ok, err, Response, fetch_range_bytes, probe_range_support,
  fetch_full_media_bytes,
}

abbrev pub media_range_fetch_attempts : ℕ
media_range_fetch_attempts = 3

abbrev pub stream_throttle_retry_delay_ms : ℕ
stream_throttle_retry_delay_ms = 10000

abbrev pub stream_transient_retry_base_ms : ℕ
stream_transient_retry_base_ms = 750

unfoldable pub transient_range_retry_delay : ℕ → Duration
transient_range_retry_delay attempt =
    from_millis (saturating_mul_u64 stream_transient_retry_base_ms (2 ^ min attempt 4))

unfoldable pub describe_retry_delay : Duration → String
unfolding display concat
describe_retry_delay delay =
    let secs = delay / 1000000000 in
    let subsec_millis = delay % 1000000000 / 1000000 in
    if ltb 0 secs && (subsec_millis == 0)
    then concat (display secs ∷ "s" ∷ [])
    else concat (display (delay / 1000000) ∷ "ms" ∷ [])

abbrev pub if_attempt_left : ℕ → Option Duration
if_attempt_left attempt =
    if ltb (attempt + 1) media_range_fetch_attempts
    then some (transient_range_retry_delay attempt)
    else none

-- An error with a status: 403 and 429 are throttling, 500 to 599 are the server's errors.
abbrev pub retry_of_status : ℕ → ℕ → Option Duration
retry_of_status code attempt =
    if (code == 403) || (code == 429)
    then (if attempt == 0 then some (from_millis stream_throttle_retry_delay_ms) else none)
    else if leb 500 code && ltb code 600
    then if_attempt_left attempt
    else none

module _ (Error : Type 0) (status_of : Error → Option ℕ) where
  abbrev pub retry_of_transport : MediaRangeError Error status_of → ℕ → Option Duration
  retry_of_transport (request range source) attempt = if_attempt_left attempt
  retry_of_transport (read range source) attempt = if_attempt_left attempt
  retry_of_transport (unsupported_range range) attempt = none
  retry_of_transport (unexpected_length range actual expected) attempt = none
  retry_of_transport (http_status range code) attempt = none

  unfoldable pub media_range_retry_delay : MediaRangeError Error status_of → ℕ → Option Duration
  unfolding transient_range_retry_delay status
  media_range_retry_delay error attempt = elim (status Error status_of error) [
    | none ↦ retry_of_transport error attempt
    | some code ↦ retry_of_status code attempt
  ]

  -- What a request with its retries comes to, after the messages that have been sent.
  pub data Outcome (A : Type 0) : Type 0 where
    done : A → Outcome A
    canceled : Outcome A
    failed : (error : MediaRangeError Error status_of) (attempts : ℕ) → Outcome A
    unfinished : Outcome A

  -- How the HTTP library prints a status, with its reason.
  module _ (show_status : ℕ → String) where
    abbrev pub status_text : Option ℕ → String
    status_text none = "transport error"
    status_text (some code) = concat ("HTTP " ∷ show_status code ∷ [])

    unfoldable pub send_media_retry_status : MediaRangeError Error status_of → Duration → String
    unfolding status range_of describe_retry_delay display concat
    send_media_retry_status error delay = concat (
        "media range "
        ∷ range_of Error status_of error
        ∷ " "
        ∷ status_text (status Error status_of error)
        ∷ "; retrying in "
        ∷ describe_retry_delay delay
        ∷ [])

    module _ {A : Type 0} where
      abbrev pub told : String → List String × Outcome A → List String × Outcome A
      told message (messages, outcome) = (message ∷ messages, outcome)

      -- An answer, with the delay before another attempt when it is an error that has one, whether the sleep
      -- goes to its end, and what the attempts after it come to.
      abbrev pub after_answer :
          Fetched Error status_of A → ℕ → Bool → List String × Outcome A → List String × Outcome A
      after_answer (ok value) attempt slept rest = ([], done value)
      after_answer (err error) attempt slept rest = elim (media_range_retry_delay error attempt) [
        | none ↦ ([], failed error (attempt + 1))
        | some delay ↦
            told (send_media_retry_status error delay) (if slept then rest else ([], canceled))
      ]

      -- The loop. For each attempt, whether its turn comes before the stream is canceled, what the server
      -- answers, and whether the sleep after it goes to its end.
      unfoldable pub with_retry :
          (ℕ → Bool)
          → (ℕ → Fetched Error status_of A)
          → (ℕ → Bool)
          → ℕ
          → ℕ
          → List String × Outcome A
      unfolding media_range_retry_delay send_media_retry_status
      with_retry turns answers sleeps zero attempt = ([], unfinished)
      with_retry turns answers sleeps (suc fuel) attempt =
          let rest = with_retry turns answers sleeps fuel (attempt + 1) in
          if not (turns attempt)
          then ([], canceled)
          else after_answer (answers attempt) attempt (sleeps attempt) rest

    abbrev pub fetch_stream_range_with_retry :
        ByteRange
        → (ℕ → Bool)
        → (ℕ → Response Error status_of)
        → (ℕ → Bool)
        → List String × Outcome (List ℕ × RangeProbe)
    fetch_stream_range_with_retry range turns responses sleeps =
        with_retry turns (λ n. fetch_range_bytes Error status_of range (responses n)) sleeps
          media_range_fetch_attempts 0

    abbrev pub probe_stream_range_with_retry :
        (ℕ → Bool) → (ℕ → Response Error status_of) → (ℕ → Bool) → List String × Outcome RangeProbe
    probe_stream_range_with_retry turns responses sleeps =
        with_retry turns (λ n. probe_range_support Error status_of (responses n)) sleeps
          media_range_fetch_attempts 0

    abbrev pub fetch_full_media_with_retry :
        (ℕ → Bool) → (ℕ → Response Error status_of) → (ℕ → Bool) → List String × Outcome (List ℕ)
    fetch_full_media_with_retry turns responses sleeps =
        with_retry turns (λ n. fetch_full_media_bytes Error status_of (responses n)) sleeps
          media_range_fetch_attempts 0
