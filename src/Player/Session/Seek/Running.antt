-- ===== src/Player/Session/Seek/Running.antt =====
-- src/player.rs: a seek in a stream whose sink goes on playing.
use link_ear.Prelude.{
  ℕ, ◌+◌, ◌*◌, ◌/◌, ◌≤◌, ◌<◌, min, ◌≡◌, refl, ap, ◌∙◌, inl, inr, Bool, true, false, none, some, [],
  ◌∷◌, arith, string_eq, nat_eq, bool_eq, option_eq, get_elem?,
}
use link_ear.Prelude.Int.{ℤ}
use link_ear.Prelude.Words.{u64_max, Instant, saturating_add_u64}
use link_ear.Core.Types.{buffering}
use link_ear.MediaCache.{ready_window_ms}
use link_ear.Player.Pcm
use link_ear.Player.Pcm.{
  StreamingPcmState, spec, stream_pcm_ready_for_position, buffered_until_ms, sample,
}
use link_ear.Player.Pcm.Source
use link_ear.Player.Pcm.Source.{
  StreamingPcmSource, yields, attempted, update_position, sync_shared_base_position,
}
use link_ear.Player.Session.{StreamingSession, streamed, AudioPlayer, cache}
use link_ear.Player.Session.Control.{cache_view, is_ready, seek}
use link_ear.Player.Session.Seek.{session_at, player_at, waits_as, seek_branches}
use link_ear.Player.Session.Seek.Outcome.{end_of, Holds, is_ready-Enough, Holds-outside}

stored_before :
    (base stored start duration : ℕ)
    → base + stored < start
    → min (saturating_add_u64 base stored) duration < start
stored_before base stored start duration h = omega (arith, h)

module _ {A : Type 0} where
  short_of :
      (session : StreamingSession A) (start : ℕ)
      → session.duration_ms ≤ u64_max
      → start ≤ session.duration_ms
      → end_of session < min (start + ready_window_ms) session.duration_ms
      → session.pcm.complete ≡ false
      → is_ready session start ≡ true
      → ⊥
  short_of session start u le short more ready = elim (is_ready-Enough session start u le ready).2 [
    | inl window ↦ omega (arith, window, short)
    | inr (all, there) ↦ absurd (cc (all, more))
  ]

  reads :
      (pcm : StreamingPcmState A) (index : ℕ) (a : A)
      → pcm.canceled ≡ false
      → pcm.error ≡ none
      → get_elem? pcm.samples index ≡ some a
      → sample pcm index ≡ Pcm.ready a
  unfolding sample
  reads pcm index a runs fine found = rw runs (rw fine (rw found refl))

  in_step :
      (source : StreamingPcmSource) (pcm : StreamingPcmState A)
      → pcm.base_position_ms ≤ source.base_position_ms
      → pcm.dropped_samples ≤ source.dropped_samples
      → sync_shared_base_position source pcm ≡ source
  unfolding sync_shared_base_position
  in_step source pcm base dropped = ground arith

  -- What a source does that knows the window of samples and has one at its place.
  next_reads :
      (source : StreamingPcmSource) (pcm : StreamingPcmState A) (now : Instant) (scaled : A → A)
      (a : A)
      → pcm.base_position_ms ≤ source.base_position_ms
      → pcm.dropped_samples ≤ source.dropped_samples
      → sample pcm source.pos ≡ Pcm.ready a
      → Source.next source pcm pcm pcm now scaled
        ≡ (update_position (record source { pos = source.pos + 1 }), yields (scaled a))
  unfolding Source.next
  next_reads source pcm now scaled a base dropped found =
      let same = in_step source pcm base dropped in
      rw same (ap (attempted source pcm now scaled) found)

  -- A sink plays the samples of a stream, which have not failed and are not canceled; its source knows
  -- where they start, the next sample is there, and the place after it is before a position. The samples
  -- reach the position, but go on from it for less than 12 seconds and not to the end of the track, and
  -- more are to come. A seek there leaves the sink as it was. The player is at the position and says that
  -- it does not play and that the stream is buffering, but the source in its sink yields the next sample
  -- of the old place and stores a position before the one that was sought.
  pub seek-plays_on :
      (player : AudioPlayer A) (session : StreamingSession A) (source : StreamingPcmSource)
      (position : ℕ) (playing : Bool) (now_micros : ℤ) (now : Instant) (scaled : A → A) (a : A)
      → player.streaming ≡ some session
      → player.sink ≡ some (record { playing = true; source = streamed source })
      → session.duration_ms ≤ u64_max
      → Holds session (min position session.duration_ms)
      → end_of session
        < min (min position session.duration_ms + ready_window_ms) session.duration_ms
      → session.pcm.complete ≡ false
      → session.pcm.canceled ≡ false
      → session.pcm.error ≡ none
      → session.pcm.base_position_ms ≤ source.base_position_ms
      → session.pcm.dropped_samples ≤ source.dropped_samples
      → get_elem? session.pcm.samples source.pos ≡ some a
      → source.base_position_ms + (source.pos + 1) / source.channels * 1000 / source.sample_rate
        < min position session.duration_ms
      → (after : AudioPlayer A) × (next : StreamingSession A) × (later : StreamingPcmSource) × (seek
            player position playing now_micros
          ≡ some (after, cache none (cache_view next buffering) ∷ []))
        × (after.streaming ≡ some next)
        × (after.playing ≡ false)
        × (after.position_ms ≡ min position session.duration_ms)
        × (after.sink ≡ some (record { playing = true; source = streamed source }))
        × (Source.next source next.pcm next.pcm next.pcm now scaled ≡ (later, yields (scaled a)))
        × (later.position_ms < after.position_ms)
  unfolding update_position
  seek-plays_on player session source position playing now_micros now scaled a here sounds u holds
        short more runs fine base dropped found before =
      let start = min position session.duration_ms in
      let le : start ≤ session.duration_ms = omega arith in
      let later = update_position (record source { pos = source.pos + 1 }) in
      let stored = (source.pos + 1) / source.channels * 1000 / source.sample_rate in
      elim (seek_branches player session position playing now_micros here) [
        | inl (ready, plays) ↦ absurd (short_of session start u le short more ready)
        | inr (unready, e) ↦ (
          record (player_at player session start) { playing = false },
          session_at session start,
          later,
          e ∙ ap (waits_as player session start) (Holds-outside session start holds),
          refl,
          refl,
          refl,
          sounds,
          next_reads source session.pcm now scaled a base dropped
              (reads session.pcm source.pos a runs fine found),
          stored_before source.base_position_ms stored start source.duration_ms before,
        )
      ]
