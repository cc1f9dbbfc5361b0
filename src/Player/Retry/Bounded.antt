-- ===== src/Player/Retry/Bounded.antt =====
-- src/player.rs: a request is sent three times at most.
use link_ear.Prelude.{
  ℕ, zero, suc, ◌+◌, ◌≤◌, ◌<◌, String, ◌≡◌, refl, Bool, not, Option, none, some, List, [], arith,
  if◌then◌else◌, string_eq, nat_eq, bool_eq, option_eq, length,
}
use mathlib.Core.Path.{subst}
use link_ear.Prelude.{if_elim}
use link_ear.Prelude.Words.{Duration}
use link_ear.MediaCache.Fetch.{
  MediaRangeError, request, http_status, unsupported_range, read, unexpected_length, status,
  Fetched, ok, err,
}
use link_ear.Player.Retry.{
  transient_range_retry_delay, if_attempt_left, retry_of_status, media_range_retry_delay, Outcome,
  done, canceled, failed, unfinished, told, after_answer, with_retry, send_media_retry_status,
}

module _ (Error : Type 0) (status_of : Error → Option ℕ) where
  status_delay :
      (code attempt : ℕ) (delay : Duration)
      → retry_of_status code attempt ≡ some delay
      → attempt < 2
  unfolding transient_range_retry_delay
  status_delay code attempt delay h = ground arith

  transport_delay :
      (code : Option ℕ) (attempt : ℕ) (delay : Duration)
      → (elim code [ none ↦ if_attempt_left attempt | some c ↦ retry_of_status c attempt ])
        ≡ some delay
      → attempt < 2
  unfolding transient_range_retry_delay
  transport_delay none attempt delay h = ground arith
  transport_delay (some code) attempt delay h = status_delay code attempt delay h

  -- Only the first two attempts are followed by another.
  media_range_retry_delay-lt :
      (error : MediaRangeError Error status_of) (attempt : ℕ) (delay : Duration)
      → media_range_retry_delay Error status_of error attempt ≡ some delay
      → attempt < 2
  unfolding media_range_retry_delay status
  media_range_retry_delay-lt (http_status range code) attempt delay h =
      status_delay code attempt delay h
  media_range_retry_delay-lt (unsupported_range range) attempt delay h = ground arith
  media_range_retry_delay-lt (unexpected_length range actual expected) attempt delay h =
      ground arith
  media_range_retry_delay-lt (request range source) attempt delay h =
      transport_delay (status_of source) attempt delay h
  media_range_retry_delay-lt (read range source) attempt delay h =
      transport_delay (status_of source) attempt delay h

  module _ {A : Type 0} where
    -- What the outcome says of the answer to the last attempt, which has this number.
    abbrev pub IsEnd : (ℕ → Fetched Error status_of A) → ℕ → Outcome Error status_of A → Type 0
    IsEnd answers n (done value) = (n ≤ 2) × (answers n ≡ ok value)
    IsEnd answers n canceled = n ≤ 2
    IsEnd answers n (failed error attempts) =
        (n ≤ 2)
        × (attempts ≡ n + 1)
        × (answers n ≡ err error)
        × (media_range_retry_delay Error status_of error n ≡ none)
    IsEnd answers n unfinished = ⊥

    -- Each message is one attempt that failed.
    abbrev pub Ends :
        (ℕ → Fetched Error status_of A) → ℕ → List String × Outcome Error status_of A → Type 0
    Ends answers attempt r = IsEnd answers (attempt + length r.0) r.1

    done-Ends :
        (answers : ℕ → Fetched Error status_of A) (attempt : ℕ)
        (outcome : Outcome Error status_of A)
        → IsEnd answers attempt outcome
        → Ends answers attempt ([], outcome)
    done-Ends answers attempt outcome h =
        let same : attempt ≡ attempt + 0 = omega arith in
        subst (λ n. IsEnd answers n outcome) same h

    module _ (show_status : ℕ → String) where
      told-Ends :
          (answers : ℕ → Fetched Error status_of A) (attempt : ℕ) (message : String)
          (r : List String × Outcome Error status_of A)
          → Ends answers (attempt + 1) r
          → Ends answers attempt (told Error status_of show_status message r)
      told-Ends answers attempt message r h =
          let same : attempt + 1 + length r.0 ≡ attempt + suc (length r.0) = omega arith in
          subst (λ n. IsEnd answers n r.1) same h

      after_error :
          (answers : ℕ → Fetched Error status_of A) (attempt : ℕ) (slept : Bool)
          (rest : List String × Outcome Error status_of A) (error : MediaRangeError Error status_of)
          (delay : Option Duration)
          → attempt ≤ 2
          → answers attempt ≡ err error
          → media_range_retry_delay Error status_of error attempt ≡ delay
          → (attempt < 2 → Ends answers (attempt + 1) rest)
          → Ends answers attempt (elim delay [
            | none ↦ ([], failed error (attempt + 1))
            | some d ↦
                told Error status_of show_status
                  (send_media_retry_status Error status_of show_status error d)
                  (if slept then rest else ([], canceled))
          ])
      after_error answers attempt slept rest error none l e h more =
          done-Ends answers attempt (failed error (attempt + 1)) (l, refl, e, h)
      after_error answers attempt slept rest error (some d) l e h more =
          let early = media_range_retry_delay-lt error attempt d h in
          let message = send_media_retry_status Error status_of show_status error d in
          told-Ends answers attempt message (if slept then rest else ([], canceled)) (
            if_elim (Ends answers (attempt + 1)) slept (λ full. more early)
              λ cut. done-Ends answers (attempt + 1) canceled (omega (arith, early)))

      after_answer-Ends :
          (answers : ℕ → Fetched Error status_of A) (attempt : ℕ) (slept : Bool)
          (rest : List String × Outcome Error status_of A) (answer : Fetched Error status_of A)
          → attempt ≤ 2
          → answers attempt ≡ answer
          → (attempt < 2 → Ends answers (attempt + 1) rest)
          → Ends answers attempt
              (after_answer Error status_of show_status answer attempt slept rest)
      after_answer-Ends answers attempt slept rest (ok value) l e more =
          done-Ends answers attempt (done value) (l, e)
      after_answer-Ends answers attempt slept rest (err error) l e more =
          after_error answers attempt slept rest error
            (media_range_retry_delay Error status_of error attempt) l e refl more

      attempts_end :
          (turns : ℕ → Bool) (answers : ℕ → Fetched Error status_of A) (sleeps : ℕ → Bool)
          (fuel attempt : ℕ)
          → attempt ≤ 2
          → 3 ≤ attempt + fuel
          → Ends answers attempt
              (with_retry Error status_of show_status turns answers sleeps fuel attempt)
      unfolding with_retry
      attempts_end turns answers sleeps zero attempt l f = absurd (omega arith)
      attempts_end turns answers sleeps (suc fuel) attempt l f =
          let rest =
            with_retry Error status_of show_status turns answers sleeps fuel (attempt + 1) in
          if_elim (Ends answers attempt) (not (turns attempt))
            (λ stop. done-Ends answers attempt canceled l)
            λ turn.
              after_answer-Ends answers attempt (sleeps attempt) rest (answers attempt) l refl
                λ early.
                  attempts_end turns answers sleeps fuel (attempt + 1) (omega arith) (omega arith)

      -- With three attempts the loop ends: it never asks for a fourth. After one message for each retry it
      -- brings what the last attempt has brought, or it was canceled, or it fails with the error of the last
      -- attempt, which is not to be retried, and the number of attempts.
      pub with_retry-ends :
          (turns : ℕ → Bool) (answers : ℕ → Fetched Error status_of A) (sleeps : ℕ → Bool)
          (fuel : ℕ)
          → 3 ≤ fuel
          → let (messages, outcome) =
              with_retry Error status_of show_status turns answers sleeps fuel 0 in
            IsEnd answers (length messages) outcome
      with_retry-ends turns answers sleeps fuel f =
          let r = with_retry Error status_of show_status turns answers sleeps fuel 0 in
          let same : 0 + length r.0 ≡ length r.0 = omega arith in
          subst (λ n. IsEnd answers n r.1) same
            (attempts_end turns answers sleeps fuel 0 (omega arith) (omega arith))
