-- ===== src/Core/Clock/Laws.antt =====
-- src/core.rs: normalize_timestamp_micros.
use link_ear.Prelude.{ℕ, ◌+◌, ◌≤◌, ◌<◌, ◌≡◌, arith, string_eq, nat_eq, bool_eq, option_eq}
use link_ear.Prelude.Int.{ℤ, pos, IsI64, ◌*ℤ◌, pos_part, neg_part}
use link_ear.Core.Clock.{normalize_timestamp_micros}

abbrev pub magnitude : ℤ → ℕ
magnitude t = pos_part t + neg_part t

-- Every i64 is normalised to an i64.
normalize-IsI64 : (t : ℤ) → IsI64 t → IsI64 (normalize_timestamp_micros t)
unfolding normalize_timestamp_micros
normalize-IsI64 t h = ground arith

-- For a timestamp of either sign: below ten thousand million it counts seconds, below ten million
-- million milliseconds, and otherwise microseconds; each becomes its count of microseconds, exactly,
-- and an i64 stays an i64.
pub normalize_units :
    (t : ℤ)
    → IsI64 t
    → IsI64 (normalize_timestamp_micros t)
      × (magnitude t < 10000000000 → normalize_timestamp_micros t ≡ t *ℤ pos 1000000)
      × (10000000000 ≤ magnitude t
          → magnitude t < 10000000000000
          → normalize_timestamp_micros t ≡ t *ℤ pos 1000)
      × (10000000000000 ≤ magnitude t → normalize_timestamp_micros t ≡ t)
unfolding normalize_timestamp_micros ◌*ℤ◌
normalize_units t h = (normalize-IsI64 t h, ground arith, ground arith, ground arith)
