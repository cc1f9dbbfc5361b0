-- ===== src/Player/Session/Seek.antt =====
-- src/player.rs: a seek in a stream.
pub mod Outcome
pub mod Running
use link_ear.Prelude.{
  ℕ, min, ◌≡◌, refl, ap, ◌∙◌, ◌⊎◌, inl, inr, Bool, true, false, ◌||◌, Option, none, some, List, [],
  ltb, if◌then◌else◌, Bool-cases, string_eq, nat_eq, bool_eq, option_eq,
}
use link_ear.Prelude.Int.{ℤ}
use link_ear.MediaCache.Window.{range_for_window}
use link_ear.Player.Stream.{normalized_stream_request_offset}
use link_ear.Player.Pcm
use link_ear.Player.Pcm.{StreamingPcmState, spec, buffered_until_ms}
use link_ear.Player.Session.{StreamingSession, AudioPlayer, AudioPlayerEvent, restart_streaming}
use link_ear.Player.Session.Control.{
  is_ready, redirected, cache_events, without_events, seek, seek_in,
}
use link_ear.Player.Session.Laws.{ready-spec, PlaysFrom, starts}

-- The offset of a position, as it is asked for.
abbrev pub wanted_offset : ℕ → ℕ → ℕ → ℕ
wanted_offset position_ms duration_ms total =
    normalized_stream_request_offset (range_for_window position_ms duration_ms total).start
      (some total)

module _ {A : Type 0} where
  -- Where a seek to a position goes.
  abbrev pub seek_start : StreamingSession A → ℕ → ℕ
  seek_start session position = min position session.duration_ms

  -- The samples of a session do not hold a position.
  abbrev pub outside : StreamingSession A → ℕ → Bool
  outside session start =
      ltb start session.pcm.base_position_ms
      || ltb (min (buffered_until_ms session.pcm) session.duration_ms) start

  -- A session and its player at another position.
  abbrev pub session_at : StreamingSession A → ℕ → StreamingSession A
  session_at session start = record session { position_ms = start }

  abbrev pub player_at : AudioPlayer A → StreamingSession A → ℕ → AudioPlayer A
  player_at player session start = record player {
    streaming = some (session_at session start);
    position_ms = start;
  }

  -- The player that waits for samples after a seek.
  abbrev pub waiting_at : AudioPlayer A → StreamingSession A → ℕ → AudioPlayer A
  waiting_at player session start =
      record (redirected (player_at player session start) (session_at session start) session.track
        start (outside session start)) { playing = false }

  -- The two answers of a seek, with the test as the code has it.
  pub seek_branches :
      (player : AudioPlayer A) (session : StreamingSession A) (position : ℕ) (playing : Bool)
      (now_micros : ℤ)
      → player.streaming ≡ some session
      → let start = min position session.duration_ms in
        ((is_ready session start ≡ true)
          × ((after : AudioPlayer A) × (seek player position playing now_micros ≡ some (after, []))
              × PlaysFrom (session_at session start) start playing after))
        ⊎ ((is_ready session start ≡ false)
            × (let waits = waiting_at player session start in
                seek player position playing now_micros
                ≡ some (waits, cache_events none waits.streaming)))
  unfolding seek
  seek_branches player session position playing now_micros here =
      let start = min position session.duration_ms in
      let moved = player_at player session start in
      let step = ap (λ s. seek_in player s position playing now_micros) here in
      let plays = without_events (restart_streaming moved start playing) in
      let waits = waiting_at player session start in
      let unready : Option (AudioPlayer A × List AudioPlayerEvent) =
        some (waits, cache_events none waits.streaming) in
      elim (Bool-cases (is_ready session start)) [
        | inl ready ↦
            let (after, e, from) =
              starts moved (session_at session start) start playing refl
                (ready-spec session start ready) in
            inl (
              ready,
              (
                after,
                step ∙ ap (λ b. if b then plays else unready) ready ∙ ap without_events e,
                from,
              ),
            )
        | inr not_ready ↦ inr (not_ready, step ∙ ap (λ b. if b then plays else unready) not_ready)
      ]

  -- The answer of a seek that waits, in terms of the test.
  abbrev waits_as :
      AudioPlayer A → StreamingSession A → ℕ → Bool → Option (AudioPlayer A × List AudioPlayerEvent)
  waits_as player session start out =
      let moved = player_at player session start in
      let waits : AudioPlayer A =
        record (redirected moved (session_at session start) session.track start out) {
          playing = false;
        } in
      some (waits, cache_events none waits.streaming)
