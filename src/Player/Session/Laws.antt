-- ===== src/Player/Session/Laws.antt =====
-- src/player.rs: what starting and seeking a stream come to.
use link_ear.Prelude.{
  ℕ, ◌<◌, min, String, ◌≡◌, refl, ap, ◌∙◌, ◌⊎◌, inl, inr, Bool, true, false, not, ◌&&◌, Option,
  none, some, arith, ltb, if◌then◌else◌, Bool-cases, is_some, string_eq, nat_eq, bool_eq, option_eq,
}
use link_ear.Player.Bytes.{
  StreamingBytesState, prioritize_offset, queue_requested_offset, take_requested_offset,
}
use link_ear.MediaCache.Index.Normal.{cached}
use link_ear.Player.Stream.{normalized_stream_request_offset, align_stream_offset}
use link_ear.Player.Pcm.{spec, stream_pcm_ready_for_position}
use link_ear.Player.Session.{
  StreamingSession, streamed, AudioPlayer, restart_streaming, streaming_from, restart_session,
  played_from, session_source,
}
use link_ear.Player.Session.Control.{is_ready, is_prepared, started, start_prepared_stream}

normalized_twice :
    (offset total : ℕ)
    → 0 < total
    → normalized_stream_request_offset
        (normalized_stream_request_offset offset (some total))
        (some total)
      ≡ normalized_stream_request_offset offset (some total)
unfolding normalized_stream_request_offset align_stream_offset
normalized_twice offset total p = omega arith

-- An offset with priority that is not in memory is the next that is taken.
pub prioritize-take :
    (s : StreamingBytesState) (offset total : ℕ)
    → 0 < total
    → s.total_bytes ≡ some total
    → cached s.ranges (normalized_stream_request_offset offset (some total)) ≡ false
    → (take_requested_offset (prioritize_offset s offset) total).1
      ≡ some (normalized_stream_request_offset offset (some total))
unfolding prioritize_offset take_requested_offset queue_requested_offset
prioritize-take s offset total p t absent =
    rw t (rw absent (rw (normalized_twice offset total p) (rw absent refl)))

module _ {A : Type 0} where
  -- A stream that is ready has a format, so that it can be started.
  pub ready-spec :
      (session : StreamingSession A) (position : ℕ)
      → is_ready session position ≡ true
      → is_some (spec session.pcm) ≡ true
  unfolding stream_pcm_ready_for_position
  ready-spec session position h = ground arith

  -- The session's samples are played from a position on, or from its end.
  abbrev pub PlaysFrom : StreamingSession A → ℕ → Bool → AudioPlayer A → Type 0
  PlaysFrom session position playing player =
      let start = min position session.duration_ms in
      (player.streaming ≡ some (record session { position_ms = start }))
      × (player.position_ms ≡ start)
      × (player.playing ≡ (playing && ltb start session.duration_ms))
      × ((channels sample_rate : ℕ) × (spec session.pcm ≡ some (channels, sample_rate))
          × (player.sink
              ≡ some (record {
                playing = playing;
                source = streamed (session_source session start channels sample_rate);
              })))

  from_spec :
      (player : AudioPlayer A) (session : StreamingSession A) (position : ℕ) (playing : Bool)
      (format : Option (ℕ × ℕ))
      → spec session.pcm ≡ format
      → is_some format ≡ true
      → (after : AudioPlayer A) × (streaming_from player session position playing format
          ≡ some after)
        × PlaysFrom session position playing after
  from_spec player session position playing none e h = absurd (ground arith)
  from_spec player session position playing (some (channels, sample_rate)) e h = (
    played_from player session position playing channels sample_rate,
    refl,
    (refl, refl, refl, (channels, sample_rate, e, refl)),
  )

  pub starts :
      (player : AudioPlayer A) (session : StreamingSession A) (position : ℕ) (playing : Bool)
      → player.streaming ≡ some session
      → is_some (spec session.pcm) ≡ true
      → (after : AudioPlayer A) × (restart_streaming player position playing ≡ some after)
        × PlaysFrom session position playing after
  unfolding restart_streaming
  starts player session position playing here h =
      let (after, e, plays) = from_spec player session position playing (spec session.pcm) refl h in
      (after, ap (λ s. restart_session player s position playing) here ∙ e, plays)

  -- Starting a prepared stream does not fail. When the stream is the player's and has the samples for the
  -- position, it plays from there, with the sink as it is asked for; otherwise the player stays as it was.
  pub start_prepared_stream-plays :
      (player : AudioPlayer A) (session : StreamingSession A) (session_id track_id : String)
      (position : ℕ) (playing : Bool)
      → player.streaming ≡ some session
      → let ready = is_prepared (some session) session_id track_id position in
        ((ready ≡ false)
          × (start_prepared_stream player session_id track_id position playing
              ≡ some (player, false)))
        ⊎ ((ready ≡ true)
            × ((after : AudioPlayer A) × (start_prepared_stream player session_id track_id position
                    playing
                  ≡ some (after, true))
                × PlaysFrom session position playing after))
  unfolding start_prepared_stream
  start_prepared_stream-plays player session session_id track_id position playing here =
      let checked = ap (λ s. is_prepared s session_id track_id position) here in
      let waits : Option (AudioPlayer A × Bool) = some (player, false) in
      let runs = started (restart_streaming player position playing) in
      elim (Bool-cases (is_prepared (some session) session_id track_id position)) [
        | inl ready ↦
            let format = ready-spec session (min position session.duration_ms) (ground arith) in
            let (after, e, plays) = starts player session position playing here format in
            inr (
              ready,
              (
                after,
                ap (λ b. if not b then waits else runs) (checked ∙ ready) ∙ ap started e,
                plays,
              ),
            )
        | inr unready ↦ inl (unready, ap (λ b. if not b then waits else runs) (checked ∙ unready))
      ]
