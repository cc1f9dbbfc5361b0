-- ===== src/Player/Session/Seek/Outcome.antt =====
-- src/player.rs: what a seek in a stream does, in terms of the positions that its samples reach from and to.
use link_ear.Prelude.{
  ℕ, ◌+◌, ◌≤◌, ◌<◌, min, ◌≡◌, ◌⊎◌, inl, inr, Bool, true, false, arith, leb, leb→le, Bool-cases,
  is_some, string_eq, nat_eq, bool_eq, option_eq,
}
use link_ear.Prelude.Words.{u64_max}
use link_ear.MediaCache.{ready_window_ms}
use link_ear.Player.Stream.{stream_ready_for_position}
use link_ear.Player.Pcm
use link_ear.Player.Pcm.{
  StreamingPcmState, spec, stream_pcm_ready_for_position, buffered_until_ms, sample,
}
use link_ear.Player.Session.{StreamingSession, AudioPlayer, silence}
use link_ear.Player.Session.Control.{is_ready}
use link_ear.Player.Session.Seek.{outside}

ready_until :
    (start duration end : ℕ) (complete : Bool)
    → duration ≤ u64_max
    → start ≤ duration
    → stream_ready_for_position start duration end complete ≡ true
    → (min (start + ready_window_ms) duration ≤ end) ⊎ ((complete ≡ true) × (start ≤ end))
unfolding stream_ready_for_position
ready_until start duration end complete u le h =
    elim (Bool-cases (leb (min (start + ready_window_ms) duration) end)) [
      | inl window ↦ inl (leb→le (min (start + ready_window_ms) duration) end window)
      | inr short ↦ inr (ground arith, ground arith)
    ]

module _ {A : Type 0} where
  -- Where the samples of a session end, as a position of its track.
  abbrev pub end_of : StreamingSession A → ℕ
  end_of session = min (buffered_until_ms session.pcm) session.duration_ms

  -- The samples reach a position.
  abbrev pub Holds : StreamingSession A → ℕ → Type 0
  Holds session start = (session.pcm.base_position_ms ≤ start) × (start ≤ end_of session)

  -- The decoder knows the format, and the samples go from a position to 12 seconds after it, or to the end
  -- of the track; where no more come, they reach the position.
  abbrev pub Enough : StreamingSession A → ℕ → Type 0
  Enough session start =
      (is_some (spec session.pcm) ≡ true)
      × (session.pcm.base_position_ms ≤ start)
      × ((min (start + ready_window_ms) session.duration_ms ≤ end_of session)
          ⊎ ((session.pcm.complete ≡ true) × (start ≤ end_of session)))

  pub is_ready-Enough :
      (session : StreamingSession A) (start : ℕ)
      → session.duration_ms ≤ u64_max
      → start ≤ session.duration_ms
      → is_ready session start ≡ true
      → Enough session start
  unfolding stream_pcm_ready_for_position
  is_ready-Enough session start u le h = (
    ground arith,
    ground arith,
    ready_until start session.duration_ms (end_of session) session.pcm.complete u le (ground arith),
  )

  pub Holds-outside :
      (session : StreamingSession A) (start : ℕ)
      → Holds session start
      → outside session start ≡ false
  Holds-outside session start (from, to) = ground arith

  -- A session that waits for samples at a position, by whether it has the position.
  abbrev pub Waits :
      AudioPlayer A → StreamingSession A → ℕ → AudioPlayer A → StreamingSession A → Type 0
  Waits player session start after next =
      (Holds session start
        × (next.pcm ≡ session.pcm)
        × (next.bytes ≡ session.bytes)
        × (after.sink ≡ player.sink))
      ⊎ (((start < session.pcm.base_position_ms) ⊎ (end_of session < start))
          × (next.pcm ≡ Pcm.new)
          × (after.sink ≡ silence player.sink))
