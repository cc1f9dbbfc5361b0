-- ===== src/Connection/Tests/Backoff.antt =====
-- src/connection_state.rs: a peer whose promotion fails.
use link_ear.Prelude.{false, some, List, [], ◌∷◌, string_eq, nat_eq, bool_eq, option_eq}
use link_ear.Prelude.Words.{from_secs}
use link_ear.Connection.Backoff.{DirectPromotionBackoff}
use link_ear.Connection.Backoff.Attempts.{Trial, attempt, failure}

abbrev failed_twice : DirectPromotionBackoff
failed_twice = record {
  attempts = 2;
  failures = 2;
  last_attempt = some (from_secs 100);
  last_failure = some (from_secs 110);
  in_flight = false;
  suspended_reported = false;
}

abbrev failed_often : DirectPromotionBackoff
failed_often = record (failed_twice) { failures = 10 }

abbrev trials : List Trial
trials = attempt (from_secs 2000) ∷ failure (from_secs 2010) ∷ []
