-- ===== src/Player/Pcm/Decoded.antt =====
-- src/player.rs: DecodedAudio and PcmSource, a track that is decoded as a whole. The volume at the time of a
-- sample is the parameter `scaled`.
use link_ear.Prelude.{
  ℕ, zero, suc, ◌+◌, ◌-◌, ◌*◌, ◌/◌, ◌%◌, ◌≤◌, ◌<◌, min, ◌≡◌, refl, sym, ap, ◌∙◌, ◌⊎◌, inl, inr,
  Option, none, some, List, [], ◌∷◌, map, arith, string_eq, nat_eq, bool_eq, option_eq, length,
  get_elem?, drop,
}
use native.Mathlib.Nat
use link_ear.Player.Pcm.Frames.{frame_aligned}
use link_ear.Prelude.Words.{saturating_mul_u64}

pub record DecodedAudio (A : Type 0) : Type 0 where
  pub samples : List A
  pub channels : ℕ
  pub sample_rate : ℕ

pub record PcmSource (A : Type 0) : Type 0 where
  pub audio : DecodedAudio A
  pub pos : ℕ

module _ {A : Type 0} where
  unfoldable pub duration_ms : DecodedAudio A → ℕ
  duration_ms audio =
      saturating_mul_u64 (length audio.samples) 1000 / audio.sample_rate / audio.channels

  unfoldable pub clamp_position_ms : DecodedAudio A → ℕ → ℕ
  unfolding duration_ms
  clamp_position_ms audio position_ms = min position_ms (duration_ms audio)

  unfoldable pub position_to_sample_index : DecodedAudio A → ℕ → ℕ
  position_to_sample_index audio position_ms =
      let samples =
        min (position_ms * audio.sample_rate / 1000 * audio.channels) (length audio.samples) in
      samples - samples % audio.channels

  unfoldable pub new : DecodedAudio A → ℕ → PcmSource A
  unfolding position_to_sample_index
  new audio position_ms = record { audio = audio; pos = position_to_sample_index audio position_ms }

  abbrev played : PcmSource A → (A → A) → Option A → PcmSource A × Option A
  played source scaled none = (source, none)
  played source scaled (some value) = (record source { pos = source.pos + 1 }, some (scaled value))

  unfoldable pub next : PcmSource A → (A → A) → PcmSource A × Option A
  next source scaled = played source scaled (get_elem? source.audio.samples source.pos)

  unfoldable pub size_hint : PcmSource A → ℕ
  size_hint source = length source.audio.samples - source.pos

  abbrev consed : Option A → List A → List A
  consed none rest = []
  consed (some a) rest = a ∷ rest

  -- What the source brings, read to its end.
  abbrev pub read_all : ℕ → PcmSource A → (A → A) → List A
  read_all zero source scaled = []
  read_all (suc fuel) source scaled =
      let (after, value) = next source scaled in
      let rest = read_all fuel after scaled in consed value rest

  drop_next :
      (samples : List A) (pos : ℕ)
      → ((get_elem? samples pos ≡ none) × (drop pos samples ≡ []))
        ⊎ ((a : A) × (get_elem? samples pos ≡ some a)
            × (drop pos samples ≡ a ∷ drop (suc pos) samples))
  drop_next [] zero = inl (refl, refl)
  drop_next [] (suc pos) = inl (refl, refl)
  drop_next (x ∷ xs) zero = inr (x, refl, refl)
  drop_next (x ∷ xs) (suc pos) = drop_next xs pos

  length-drop : (n : ℕ) (xs : List A) → length (drop n xs) ≡ length xs - n
  length-drop zero xs = omega arith
  length-drop (suc n) [] = omega arith
  length-drop (suc n) (x ∷ xs) = omega (arith, length-drop n xs)

  read_all-drop :
      (fuel : ℕ) (source : PcmSource A) (scaled : A → A)
      → size_hint source < fuel
      → read_all fuel source scaled ≡ map scaled (drop source.pos source.audio.samples)
  unfolding next size_hint
  read_all-drop zero source scaled h = absurd (omega arith)
  read_all-drop (suc fuel) source scaled h =
      let found = λ (r : PcmSource A × Option A). consed r.1 (read_all fuel r.0 scaled) in
      let step = λ (o : Option A). found (played source scaled o) in
      elim (drop_next source.audio.samples source.pos) [
        | inl (e, rest) ↦ ap step e ∙ sym (ap (map scaled) rest)
        | inr (a, e, rest) ↦
            let after = record source { pos = source.pos + 1 } in
            let more : size_hint after < fuel =
              omega (arith, length-drop source.pos source.audio.samples, ap length rest) in
            let at : source.pos + 1 ≡ suc source.pos = omega arith in
            ap step e
            ∙ ap (λ r. scaled a ∷ r)
                (read_all-drop fuel after scaled more
                  ∙ ap (λ i. map scaled (drop i source.audio.samples)) at)
            ∙ sym (ap (map scaled) rest)
      ]

  -- A position in a track stands for the first sample of its frame when the track has this frame, and in
  -- any case for the start of a frame. The source that starts there brings every sample from there on in
  -- order, at its volume, and ends after the last.
  pub new-read_all :
      (audio : DecodedAudio A) (position_ms fuel : ℕ) (scaled : A → A)
      → 0 < audio.channels
      → length audio.samples < fuel
      → let index = position_to_sample_index audio position_ms in
        let frame = position_ms * audio.sample_rate / 1000 in
        (index % audio.channels ≡ 0)
        × (frame * audio.channels ≤ length audio.samples → index ≡ frame * audio.channels)
        × (read_all fuel (new audio position_ms) scaled ≡ map scaled (drop index audio.samples))
  unfolding new position_to_sample_index size_hint
  new-read_all audio position_ms fuel scaled p f =
      let wanted = position_ms * audio.sample_rate / 1000 * audio.channels in
      let samples = min wanted (length audio.samples) in
      (
        (frame_aligned samples audio.channels p).0,
        (λ there.
            let all_there : min wanted (length audio.samples) ≡ wanted = omega arith in
            let whole : wanted - wanted % audio.channels ≡ wanted =
              omega
                (arith, Nat.mul-mod_left (position_ms * audio.sample_rate / 1000) audio.channels) in
            ap (λ x. x - x % audio.channels) all_there ∙ whole),
        read_all-drop fuel (new audio position_ms) scaled (omega arith),
      )
