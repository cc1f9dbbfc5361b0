-- ===== src/Player/Pcm/Time.antt =====
-- src/player.rs: the position that stands for the start of a SharedPcm's window.
use link_ear.Prelude.{
  ℕ, ◌+◌, ◌-◌, ◌*◌, ◌/◌, ◌%◌, ◌≤◌, ◌<◌, max, ◌≡◌, sym, some, arith, ltb, leb, ◌==◌, string_eq,
  nat_eq, bool_eq, option_eq, length,
}
use mathlib.Core.Path.{subst}
use link_ear.Prelude.{if_elim}
use link_ear.Prelude.Words.{saturating_add_u64, u64_max}
use link_ear.Player.Stream.{stream_pcm_trim_granularity_ms}
use link_ear.Player.Pcm.{StreamingPcmState, frames_to_drop, dropping, trim_with, trim_before}
use link_ear.Player.Pcm.Frames.{frames_within, time_of_frames}

lost_at_44100 :
    (elapsed_ms frames : ℕ)
    → 0 < elapsed_ms % 10
    → frames ≡ elapsed_ms * 44100 / 1000
    → (frames * 1000 / 44100 + 1 ≡ elapsed_ms) × (0 < frames * 1000 % 44100)
lost_at_44100 elapsed_ms frames h e = (omega arith, omega arith)

module _ {A : Type 0} where
  -- The position of the window's start goes on by the time of the frames that have been dropped, in whole
  -- milliseconds.
  abbrev pub Advances : StreamingPcmState A → StreamingPcmState A → ℕ → ℕ → ℕ → Type 0
  Advances s t channels sample_rate retain_from_ms =
      (frames : ℕ) × (t.dropped_samples ≡ s.dropped_samples + frames * channels)
      × (s.base_position_ms ≤ t.base_position_ms)
      × (t.base_position_ms ≤ max s.base_position_ms retain_from_ms)
      × ((t.base_position_ms - s.base_position_ms) * sample_rate ≤ frames * 1000)
      × (frames * 1000 < (t.base_position_ms - s.base_position_ms + 1) * sample_rate)

  stays :
      (s : StreamingPcmState A) (channels sample_rate retain_from_ms : ℕ)
      → 0 < sample_rate
      → Advances s s channels sample_rate retain_from_ms
  stays s channels sample_rate retain_from_ms p =
      let none_gone : 0 ≡ s.base_position_ms - s.base_position_ms = omega arith in
      (
        0,
        omega arith,
        omega arith,
        omega arith,
        subst (λ x. x * sample_rate ≤ 0 * 1000) none_gone (omega arith),
        subst (λ x. 0 * 1000 < (x + 1) * sample_rate) none_gone (omega arith),
      )

  dropping-Advances :
      (s : StreamingPcmState A) (channels sample_rate retain_from_ms : ℕ)
      → 0 < channels
      → 0 < sample_rate
      → s.base_position_ms ≤ retain_from_ms
      → retain_from_ms ≤ u64_max
      → s.dropped_samples + length s.samples ≤ u64_max
      → Advances s
          (dropping s channels sample_rate (frames_to_drop s channels sample_rate retain_from_ms))
          channels
          sample_rate
          retain_from_ms
  dropping-Advances s channels sample_rate retain_from_ms p q after u v =
      let elapsed = retain_from_ms - s.base_position_ms in
      let frames = frames_to_drop s channels sample_rate retain_from_ms in
      let within = frames_within frames (length s.samples) channels p (omega arith) in
      let (most, low, high) = time_of_frames elapsed sample_rate frames q (omega arith) in
      let advanced = frames * 1000 / sample_rate in
      let exact : saturating_add_u64 s.base_position_ms advanced - s.base_position_ms ≡ advanced =
        omega (arith, most) in
      (
        frames,
        omega (arith, within),
        omega (arith, most),
        omega (arith, most),
        subst (λ x. x * sample_rate ≤ frames * 1000) (sym exact) low,
        subst (λ x. frames * 1000 < (x + 1) * sample_rate) (sym exact) high,
      )

  -- A trim moves the position of the window's start on by the time of the frames that it drops, rounded
  -- down to a millisecond, and no further than the position that is to be retained.
  pub trim_before-Advances :
      (s : StreamingPcmState A) (channels sample_rate position_ms retain_behind_ms : ℕ)
      → 0 < channels
      → 0 < sample_rate
      → s.channels ≡ some channels
      → s.sample_rate ≡ some sample_rate
      → position_ms ≤ u64_max
      → s.dropped_samples + length s.samples ≤ u64_max
      → Advances s
          (trim_before s position_ms retain_behind_ms)
          channels
          sample_rate
          (position_ms - retain_behind_ms)
  unfolding trim_before
  trim_before-Advances s channels sample_rate position_ms retain_behind_ms p q c r u v =
      let from = position_ms - retain_behind_ms in
      let advances = λ (t : StreamingPcmState A). Advances s t channels sample_rate from in
      let same = stays s channels sample_rate from q in
      let trimmed : advances (trim_with s (some channels) (some sample_rate) from) =
        if_elim advances (leb from s.base_position_ms) (λ early. same)
          λ late.
            if_elim advances (ltb (from - s.base_position_ms) stream_pcm_trim_granularity_ms)
              (λ few. same)
              λ enough.
                if_elim advances (frames_to_drop s channels sample_rate from == 0)
                  (λ none_there. same)
                  λ there.
                    dropping-Advances s channels sample_rate from p q (ground arith) (omega arith)
                      v in
      subst (λ o. advances (trim_with s o s.sample_rate from)) (sym c)
        (subst (λ o. advances (trim_with s (some channels) o from)) (sym r) trimmed)

  dropping_behind :
      (s : StreamingPcmState A) (channels retain_from_ms : ℕ)
      → s.base_position_ms ≤ retain_from_ms
      → retain_from_ms ≤ u64_max
      → 0 < (retain_from_ms - s.base_position_ms) % 10
      → (retain_from_ms - s.base_position_ms) * 44100 / 1000 ≤ length s.samples / channels
      → (dropping s channels 44100
            (frames_to_drop s channels 44100 retain_from_ms)).base_position_ms
          + 1
        ≡ retain_from_ms
  dropping_behind s channels retain_from_ms after u h there =
      let frames = frames_to_drop s channels 44100 retain_from_ms in
      omega (arith, lost_at_44100 (retain_from_ms - s.base_position_ms) frames h (omega arith))

  -- At 44,100 Hz, a trim that drops all frames before a position a second or more later, in a time that is
  -- no multiple of 10 ms, leaves the position of the window's start a millisecond short of it.
  pub trim_before-behind :
      (s : StreamingPcmState A) (channels position_ms retain_behind_ms : ℕ)
      → s.channels ≡ some channels
      → s.sample_rate ≡ some 44100
      → position_ms ≤ u64_max
      → stream_pcm_trim_granularity_ms ≤ position_ms - retain_behind_ms - s.base_position_ms
      → 0 < (position_ms - retain_behind_ms - s.base_position_ms) % 10
      → (position_ms - retain_behind_ms - s.base_position_ms) * 44100 / 1000
        ≤ length s.samples / channels
      → (trim_before s position_ms retain_behind_ms).base_position_ms + 1
        ≡ position_ms - retain_behind_ms
  unfolding trim_before
  trim_before-behind s channels position_ms retain_behind_ms c r u enough h there =
      let from = position_ms - retain_behind_ms in
      let behind = λ (t : StreamingPcmState A). t.base_position_ms + 1 ≡ from in
      let trimmed : behind (trim_with s (some channels) (some 44100) from) =
        if_elim behind (leb from s.base_position_ms) (λ early. absurd (ground arith))
          λ late.
            if_elim behind (ltb (from - s.base_position_ms) stream_pcm_trim_granularity_ms)
              (λ few. absurd (ground arith))
              λ far.
                if_elim behind (frames_to_drop s channels 44100 from == 0)
                  (λ none_there. absurd (ground arith))
                  λ some_there.
                    dropping_behind s channels from (omega arith) (omega arith) h there in
      subst (λ o. behind (trim_with s o s.sample_rate from)) (sym c)
        (subst (λ o. behind (trim_with s (some channels) o from)) (sym r) trimmed)
