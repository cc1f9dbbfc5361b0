-- ===== src/Player/Pcm/Reader.antt =====
-- src/player.rs: which samples the reader of a SharedPcm gets.
use link_ear.Prelude.{
  ℕ, zero, suc, ◌+◌, ◌-◌, ◌%◌, ◌≤◌, ◌<◌, max, String, ◌≡◌, refl, sym, ap, ◌∙◌, inl, inr, Bool, ◌&&◌,
  Option, none, some, List, [], ◌∷◌, arith, leb, leb→le, if◌then◌else◌, Bool-cases, string_eq,
  nat_eq, bool_eq, option_eq, get_elem?, drop,
}
use mathlib.Core.Path.{subst}
use native.Mathlib.Nat
use link_ear.Prelude.{if_elim}
use link_ear.Prelude.Words.{Instant}
use link_ear.Player.Pcm.{
  StreamingPcmState, PcmSample, ready, waiting, finished, failed, stopped, sample, looked_up,
  checked_for_error,
}
use link_ear.Player.Pcm.Frames.{sub-frames, mod-sub-whole}
use link_ear.Player.Pcm.Window.{IsWindow}
use link_ear.Player.Pcm.Source.{
  StreamingPcmSource, frame_start, update_position, yields, sync_shared_base_position, attempted,
  next,
}

-- The number of the sample, of all that are pushed, that a reader comes to.
abbrev pub at : StreamingPcmSource → ℕ
at source = source.dropped_samples + source.pos

module _ {A : Type 0} where
  -- A reader of the state, which may not yet know of the last samples that were dropped. What has been
  -- dropped is whole frames.
  abbrev pub Follows : StreamingPcmSource → StreamingPcmState A → Type 0
  Follows source shared =
      (0 < source.channels)
      × (source.dropped_samples % source.channels ≡ 0)
      × (shared.dropped_samples % source.channels ≡ 0)
      × (source.dropped_samples ≤ shared.dropped_samples)

  -- The window has not moved since the reader has looked.
  abbrev pub unmoved : StreamingPcmSource → StreamingPcmState A → Bool
  unmoved source shared =
      leb shared.dropped_samples source.dropped_samples
      && leb shared.base_position_ms source.base_position_ms

  -- Where a reader goes on that has looked at the window.
  abbrev pub goes_on_at : StreamingPcmSource → StreamingPcmState A → ℕ
  goes_on_at source shared =
      if unmoved source shared
      then at source
      else max shared.dropped_samples (at source - source.pos % source.channels)

  moved_at :
      (source : StreamingPcmSource) (shared : StreamingPcmState A)
      → Follows source shared
      → shared.dropped_samples
          + frame_start
              (source.pos - (shared.dropped_samples - source.dropped_samples))
              source.channels
        ≡ max shared.dropped_samples (at source - source.pos % source.channels)
  moved_at source shared (p, earlier, later, le) =
      let delta = shared.dropped_samples - source.dropped_samples in
      let whole =
        sub-frames source.dropped_samples shared.dropped_samples source.channels earlier later le in
      elim (Bool-cases (leb delta source.pos)) [
        | inl within ↦
            let same =
              mod-sub-whole source.pos delta source.channels whole
                (leb→le delta source.pos within) in
            omega (
              arith,
              same,
              leb→le delta source.pos within,
              Nat.mod-le (source.pos - delta) source.channels,
            )
        | inr beyond ↦ ground arith
      ]

  pub synced_at :
      (source : StreamingPcmSource) (shared : StreamingPcmState A)
      → Follows source shared
      → let synced = sync_shared_base_position source shared in
        (at synced ≡ goes_on_at source shared) × (synced.dropped_samples ≡ shared.dropped_samples)
  unfolding sync_shared_base_position
  synced_at source shared follows = elim (Bool-cases (unmoved source shared)) [
    | inl same ↦ rw same (refl, ground (arith, follows.3))
    | inr moved ↦ rw moved (moved_at source shared follows, refl)
  ]

  synced-Follows :
      (source : StreamingPcmSource) (shared : StreamingPcmState A)
      → Follows source shared
      → Follows (sync_shared_base_position source shared) shared
  unfolding sync_shared_base_position
  synced-Follows source shared (p, earlier, later, le) =
      if_elim (λ (t : StreamingPcmSource). Follows t shared) (unmoved source shared)
        (λ same. (p, earlier, later, le)) λ moved. (p, later, later, omega arith)

  get_elem?-drop : (n i : ℕ) (xs : List A) → get_elem? (drop n xs) i ≡ get_elem? xs (n + i)
  get_elem?-drop zero i xs = let same : i ≡ 0 + i = omega arith in ap (get_elem? xs) same
  get_elem?-drop (suc n) i [] = refl
  get_elem?-drop (suc n) i (x ∷ xs) =
      let same : suc (n + i) ≡ suc n + i = omega arith in
      get_elem?-drop n i xs ∙ ap (get_elem? (x ∷ xs)) same

  looked_ready :
      (shared : StreamingPcmState A) (found : Option A) (value : A)
      → looked_up shared found ≡ ready value
      → found ≡ some value
  looked_ready shared (some a) value h = cc
  looked_ready shared none value h = ground arith

  checked_ready :
      (shared : StreamingPcmState A) (index : ℕ) (error : Option String) (value : A)
      → checked_for_error shared index error ≡ ready value
      → get_elem? shared.samples index ≡ some value
  checked_ready shared index (some message) value h = cc
  checked_ready shared index none value h =
      looked_ready shared (get_elem? shared.samples index) value h

  -- What the sample at an index of the window is.
  sample_lem :
      (pushed : List A) (shared : StreamingPcmState A) (index : ℕ) (value : A)
      → IsWindow pushed shared
      → sample shared index ≡ ready value
      → get_elem? pushed (shared.dropped_samples + index) ≡ some value
  unfolding sample
  sample_lem pushed shared index value (held, within, format) h =
      let running : checked_for_error shared index shared.error ≡ ready value = ground arith in
      sym (get_elem?-drop shared.dropped_samples index pushed)
      ∙ ap (λ xs. get_elem? xs index) (sym held)
      ∙ checked_ready shared index shared.error value running

  attempted_yields :
      (source after : StreamingPcmSource) (shared : StreamingPcmState A) (now : Instant)
      (scaled : A → A) (found : PcmSample A) (value : A)
      → attempted source shared now scaled found ≡ (after, yields value)
      → (a : A) × (found ≡ ready a)
        × (value ≡ scaled a)
        × (update_position (record source { pos = source.pos + 1 }) ≡ after)
  attempted_yields source after shared now scaled (ready a) value h = (a, refl, cc, ap (λ r. r.0) h)
  attempted_yields source after shared now scaled finished value h = ground arith
  attempted_yields source after shared now scaled (failed message) value h = ground arith
  attempted_yields source after shared now scaled stopped value h = ground arith
  attempted_yields source after shared now scaled waiting value h = ground arith

  -- A reader whose own count of dropped samples is of whole frames, as the window's is, and not ahead of
  -- it, goes on where it was, or where the window now starts; when the window has moved, from the start of
  -- the frame that it was in. This place is found under one lock and the sample is looked up under the
  -- next, by when no fewer samples are dropped. What it yields is, at its volume, the sample of all that
  -- the decoder has pushed which comes as many samples after this place as have been dropped between the
  -- two locks: the one at its place if none were. It comes to what follows its place in any case.
  pub next-yields :
      (pushed : List A) (source after : StreamingPcmSource)
      (first second third : StreamingPcmState A) (now : Instant) (scaled : A → A) (value : A)
      → IsWindow pushed second
      → Follows source first
      → first.dropped_samples ≤ second.dropped_samples
      → next source first second third now scaled ≡ (after, yields value)
      → let between = second.dropped_samples - first.dropped_samples in
        (a : A) × (get_elem? pushed (goes_on_at source first + between) ≡ some a)
        × (value ≡ scaled a)
        × (at after ≡ suc (goes_on_at source first))
        × Follows after first
  unfolding next update_position
  next-yields pushed source after first second third now scaled value window follows later h =
      let synced = sync_shared_base_position source first in
      let (place, dropped) = synced_at source first follows in
      let (a, found, scaled_value, result) =
        attempted_yields synced after third now scaled (sample second synced.pos) value h in
      let there = sample_lem pushed second synced.pos a window found in
      let same : second.dropped_samples + synced.pos
          ≡ goes_on_at source first + (second.dropped_samples - first.dropped_samples) =
        omega (arith, place, dropped, later) in
      (
        a,
        ap (get_elem? pushed) (sym same) ∙ there,
        scaled_value,
        sym (ap at result) ∙ omega (arith, place),
        subst (λ t. Follows t first) result (synced-Follows source first follows),
      )

  -- A reader that is within a frame when the window has moved, but not past its place, yields the first
  -- sample of this frame again, where nothing is dropped while it looks.
  pub moved-repeats :
      (pushed : List A) (source after : StreamingPcmSource)
      (first second third : StreamingPcmState A) (now : Instant) (scaled : A → A) (value : A)
      → IsWindow pushed second
      → Follows source first
      → 0 < source.pos % source.channels
      → source.dropped_samples < first.dropped_samples
      → first.dropped_samples ≤ at source - source.pos % source.channels
      → second.dropped_samples ≡ first.dropped_samples
      → next source first second third now scaled ≡ (after, yields value)
      → (a : A) × (get_elem? pushed (at source - source.pos % source.channels) ≡ some a)
        × (value ≡ scaled a)
        × (at after ≤ at source)
  moved-repeats pushed source after first second third now scaled value window follows within moved
        inside still h =
      let (a, found, scaled_value, place, again) =
        next-yields pushed source after first second third now scaled value window follows
          (omega (arith, still)) h in
      let back : goes_on_at source first ≡ at source - source.pos % source.channels =
        ground arith in
      let same : at source - source.pos % source.channels
          ≡ goes_on_at source first + (second.dropped_samples - first.dropped_samples) =
        omega (arith, back, still) in
      (
        a,
        ap (get_elem? pushed) same ∙ found,
        scaled_value,
        omega (arith, place, back, Nat.mod-le source.pos source.channels),
      )
