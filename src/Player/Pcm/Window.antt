-- ===== src/Player/Pcm/Window.antt =====
-- src/player.rs: SharedPcm holds a window of the samples that the decoder has pushed.
use link_ear.Prelude.{
  ℕ, zero, suc, ◌+◌, ◌-◌, ◌*◌, ◌/◌, ◌%◌, ◌≤◌, ◌<◌, min, ◌≡◌, refl, sym, ap, ◌∙◌, false, Option,
  none, some, List, [], ◌∷◌, ◌++◌, arith, ltb, leb, ◌==◌, string_eq, nat_eq, bool_eq, option_eq,
  length, drop,
}
use mathlib.Core.Path.{subst}
use native.Mathlib.Numerals.{unary_clauses}
use link_ear.Prelude.{if_elim}
use link_ear.Prelude.Words.{saturating_add_u64, u64_max}
use link_ear.Player.Stream.{stream_pcm_trim_granularity_ms}
use link_ear.Player.Pcm.{
  StreamingPcmState, format_changed, frames_to_drop, dropping, trim_to, trim_with,
}
use link_ear.Player.Pcm.Frames.{frames_within, add-frames}

-- A frame has a sample for each channel.
abbrev pub IsSpec : Option ℕ → Option ℕ → ℕ → Type 0
IsSpec (some channels) (some sample_rate) dropped =
    (0 < channels) × (0 < sample_rate) × (dropped % channels ≡ 0)
IsSpec (some channels) none dropped = ⊥
IsSpec none sample_rate dropped = (sample_rate ≡ none) × (dropped ≡ 0)

pub format-IsSpec :
    (dropped channels sample_rate : ℕ) (known_channels known_rate : Option ℕ)
    → 0 < channels
    → 0 < sample_rate
    → IsSpec known_channels known_rate dropped
    → format_changed known_channels known_rate channels sample_rate ≡ false
    → IsSpec (some channels) (some sample_rate) dropped
format-IsSpec dropped channels sample_rate (some c) (some r) p q format same = ground arith
format-IsSpec dropped channels sample_rate (some c) none p q format same = absurd format
format-IsSpec dropped channels sample_rate none r p q format same = (p, q, omega (arith, format.1))

module _ {A : Type 0} where
  pub drop-append : (n : ℕ) (xs ys : List A) → n ≤ length xs → drop n (xs ++ ys) ≡ drop n xs ++ ys
  drop-append zero xs ys h = refl
  drop-append (suc n) [] ys h = absurd (omega (arith, h))
  drop-append (suc n) (x ∷ xs) ys h = drop-append n xs ys (omega arith)

  drop-drop : (m n : ℕ) (xs : List A) → drop m (drop n xs) ≡ drop (n + m) xs
  drop-drop m zero xs = let same : m ≡ 0 + m = omega arith in ap (λ k. drop k xs) same
  drop-drop zero (suc n) [] = simp unary_clauses refl
  drop-drop (suc m) (suc n) [] = simp unary_clauses refl
  drop-drop m (suc n) (x ∷ xs) =
      let next : suc (n + m) ≡ suc n + m = omega arith in
      drop-drop m n xs ∙ ap (λ k. drop k (x ∷ xs)) next

  pub length-drop : (n : ℕ) (xs : List A) → length (drop n xs) ≡ length xs - n
  length-drop zero xs = omega arith
  length-drop (suc n) [] = omega arith
  length-drop (suc n) (x ∷ xs) = omega (arith, length-drop n xs)

  -- The state holds what has been pushed but for whole frames at its start.
  abbrev pub IsWindow : List A → StreamingPcmState A → Type 0
  IsWindow pushed s =
      (s.samples ≡ drop s.dropped_samples pushed)
      × (s.dropped_samples ≤ length pushed)
      × IsSpec s.channels s.sample_rate s.dropped_samples

  -- How many samples are dropped with some frames, and how many have been then.
  dropped_count :
      (s : StreamingPcmState A) (frames channels count : ℕ)
      → 0 < channels
      → frames ≤ length s.samples / channels
      → s.dropped_samples + length s.samples ≤ u64_max
      → let n = min (frames * channels) (length s.samples) in
        (n ≡ frames * channels)
        × (saturating_add_u64 s.dropped_samples n ≡ s.dropped_samples + frames * channels)
        × (frames * channels ≤ length s.samples)
  dropped_count s frames channels count p h u =
      let within = frames_within frames (length s.samples) channels p h in
      (omega arith, omega arith, within)

  dropping-IsWindow :
      (pushed : List A) (s : StreamingPcmState A) (channels sample_rate frames : ℕ)
      → length pushed ≤ u64_max
      → (s.channels ≡ some channels) × (s.sample_rate ≡ some sample_rate)
      → frames ≤ length s.samples / channels
      → IsWindow pushed s
      → IsWindow pushed (dropping s channels sample_rate frames)
  dropping-IsWindow pushed s channels sample_rate frames u (c, r) h (held, within, format) =
      let spec_of : (d : ℕ)
          → IsSpec s.channels s.sample_rate d
          → IsSpec (some channels) (some sample_rate) d =
        λ d known.
          subst (λ r. IsSpec (some channels) r d) r
            (subst (λ c. IsSpec c s.sample_rate d) c known) in
      let back : (d : ℕ)
          → IsSpec (some channels) (some sample_rate) d
          → IsSpec s.channels s.sample_rate d =
        λ d known.
          subst (λ c. IsSpec c s.sample_rate d) (sym c)
            (subst (λ r. IsSpec (some channels) r d) (sym r) known) in
      let (positive, p, before) = spec_of s.dropped_samples format in
      let left = ap length held ∙ length-drop s.dropped_samples pushed in
      let (count, total, most) =
        dropped_count s frames channels (length s.samples) positive h (omega (arith, left)) in
      (
        ap (λ n. drop n s.samples) count
            ∙ ap (drop (frames * channels)) held
            ∙ drop-drop (frames * channels) s.dropped_samples pushed
            ∙ ap (λ n. drop n pushed) (sym total),
        omega (arith, left),
        back (saturating_add_u64 s.dropped_samples (min (frames * channels) (length s.samples))) (
          positive,
          p,
          ap (λ n. n % channels) total ∙ add-frames s.dropped_samples frames channels before,
        ),
      )

  trim_to-IsWindow :
      (pushed : List A) (s : StreamingPcmState A) (channels sample_rate retain_from_ms : ℕ)
      → length pushed ≤ u64_max
      → (s.channels ≡ some channels) × (s.sample_rate ≡ some sample_rate)
      → IsWindow pushed s
      → IsWindow pushed (trim_to s channels sample_rate retain_from_ms)
  trim_to-IsWindow pushed s channels sample_rate retain_from_ms u known window =
      let frames = frames_to_drop s channels sample_rate retain_from_ms in
      let after =
        dropping-IsWindow pushed s channels sample_rate frames u known (omega arith) window in
      let is_window = IsWindow pushed in
      if_elim is_window (leb retain_from_ms s.base_position_ms) (λ early. window)
        λ late.
          if_elim is_window
            (ltb (retain_from_ms - s.base_position_ms) stream_pcm_trim_granularity_ms)
            (λ few. window)
            λ enough. if_elim is_window (frames == 0) (λ none_there. window) λ there. after

  pub trim_with-IsWindow :
      (pushed : List A) (s : StreamingPcmState A) (channels sample_rate : Option ℕ)
      (retain_from_ms : ℕ)
      → length pushed ≤ u64_max
      → (s.channels ≡ channels) × (s.sample_rate ≡ sample_rate)
      → IsWindow pushed s
      → IsWindow pushed (trim_with s channels sample_rate retain_from_ms)
  trim_with-IsWindow pushed s (some channels) (some sample_rate) retain_from_ms u known window =
      trim_to-IsWindow pushed s channels sample_rate retain_from_ms u known window
  trim_with-IsWindow pushed s none sample_rate retain_from_ms u known window = window
  trim_with-IsWindow pushed s (some channels) none retain_from_ms u known window = window
