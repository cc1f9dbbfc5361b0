-- ===== src/Prelude/Words.antt =====
-- Unsigned machine words: u32 and u64 with their saturating operations. Durations and instants
-- count nanoseconds.
use Prim.Native.Nat.{ℕ, ◌+◌, ◌-◌, ◌*◌, ◌/◌, min}

abbrev pub u32_max : ℕ
u32_max = 4294967295

abbrev pub u64_max : ℕ
u64_max = 18446744073709551615

abbrev pub saturating_add_u32 : ℕ → ℕ → ℕ
saturating_add_u32 a b = min (a + b) u32_max

abbrev pub saturating_add_u64 : ℕ → ℕ → ℕ
saturating_add_u64 a b = min (a + b) u64_max

abbrev pub saturating_mul_u64 : ℕ → ℕ → ℕ
saturating_mul_u64 a b = min (a * b) u64_max

-- std::time::Duration and tokio::time::Instant.
abbrev pub Duration : Type 0
Duration = ℕ

abbrev pub Instant : Type 0
Instant = ℕ

abbrev pub from_secs : ℕ → Duration
from_secs n = n * 1000000000

abbrev pub from_millis : ℕ → Duration
from_millis n = n * 1000000

abbrev pub as_secs : Duration → ℕ
as_secs d = d / 1000000000

abbrev pub as_millis : Duration → ℕ
as_millis d = d / 1000000

abbrev pub as_micros : Duration → ℕ
as_micros d = d / 1000

-- `Instant::saturating_duration_since`: the subtraction of ℕ stops at 0 too.
abbrev pub duration_since : Instant → Instant → Duration
duration_since now earlier = now - earlier
