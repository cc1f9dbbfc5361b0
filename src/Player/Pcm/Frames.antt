-- ===== src/Player/Pcm/Frames.antt =====
-- src/player.rs: samples that are interleaved in frames, one for each channel.
use link_ear.Prelude.{
  ℕ, ◌+◌, ◌-◌, ◌*◌, ◌/◌, ◌%◌, ◌≤◌, ◌<◌, ◌≡◌, sym, ap, ◌∙◌, arith, string_eq, nat_eq, bool_eq,
  option_eq,
}
use native.Mathlib.Nat

-- The samples of whole frames.
pub frame_aligned : (x c : ℕ) → 0 < c → ((x - x % c) % c ≡ 0) × (x - x % c ≤ x)
frame_aligned x c p =
    let multiple : x - x % c ≡ x / c * c =
      omega (arith, Nat.mod-eq-sub-div-mul x c, Nat.div-mul-le_self x c) in
    (ap (λ y. y % c) multiple ∙ Nat.mul-mod_left (x / c) c, omega arith)

-- Whole frames that are dropped are in the samples.
pub frames_within : (frames count c : ℕ) → 0 < c → frames ≤ count / c → frames * c ≤ count
frames_within frames count c p h =
    omega (arith, Nat.mul-le-mul_right c h, Nat.div-mul-le_self count c)

pub add-frames : (x frames c : ℕ) → x % c ≡ 0 → (x + frames * c) % c ≡ 0
add-frames x frames c h = Nat.add-mul-mod_self_right x frames c ∙ h

-- The time of some frames, rounded down, and no more than that.
pub time_of_frames :
    (elapsed_ms sample_rate frames : ℕ)
    → 0 < sample_rate
    → frames ≤ elapsed_ms * sample_rate / 1000
    → let advanced = frames * 1000 / sample_rate in
      (advanced ≤ elapsed_ms)
      × (advanced * sample_rate ≤ frames * 1000)
      × (frames * 1000 < (advanced + 1) * sample_rate)
time_of_frames elapsed_ms sample_rate frames p h =
    let most : frames * 1000 ≤ elapsed_ms * sample_rate =
      omega (arith, h, Nat.div-mul-le_self (elapsed_ms * sample_rate) 1000) in
    (
      Nat.div-le_of_le-mul sample_rate (omega (arith, most, Nat.mul_comm elapsed_ms sample_rate)),
      Nat.div-mul-le_self (frames * 1000) sample_rate,
      (Nat.div-lt_iff_lt-mul p).0 (omega arith),
    )

-- Numbers that differ by whole frames.
pub mod-add-whole : (whole x c : ℕ) → whole % c ≡ 0 → (whole + x) % c ≡ x % c
mod-add-whole whole x c h =
    sym (Nat.mod-add-mod whole c x) ∙ ap (λ y. (y + x) % c) h ∙ ap (λ y. y % c) none_added
  where
    none_added : 0 + x ≡ x
    none_added = omega arith

pub sub-frames :
    (earlier later c : ℕ)
    → earlier % c ≡ 0
    → later % c ≡ 0
    → earlier ≤ later
    → (later - earlier) % c ≡ 0
sub-frames earlier later c h k le =
    let whole : earlier + (later - earlier) ≡ later = omega arith in
    sym (mod-add-whole earlier (later - earlier) c h) ∙ ap (λ y. y % c) whole ∙ k

pub mod-sub-whole : (pos whole c : ℕ) → whole % c ≡ 0 → whole ≤ pos → (pos - whole) % c ≡ pos % c
mod-sub-whole pos whole c h le =
    let sum : whole + (pos - whole) ≡ pos = omega arith in
    sym (mod-add-whole whole (pos - whole) c h) ∙ ap (λ y. y % c) sum
