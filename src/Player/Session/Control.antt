-- ===== src/Player/Session/Control.antt =====
-- src/player.rs: the operations of AudioPlayer on a stream: preparing, seeking, starting and pausing.
use link_ear.Prelude.{
  ℕ, min, String, Bool, true, false, not, ◌&&◌, ◌||◌, Option, none, some, List, [], ◌∷◌, map, ltb,
  if◌then◌else◌, is_some, ◌==◌, string_eq, nat_eq, bool_eq, option_eq,
}
use link_ear.Prelude.Int.{ℤ}
use link_ear.Core.Types.{PlaybackTrack, PlaybackCacheView, PlaybackCacheStatus, buffering}
use link_ear.Player.Pcm.{buffered_until_ms, stream_pcm_ready_for_position, stream_pcm_cache_window}
use link_ear.Player.Pcm.Decoded.{DecodedAudio, duration_ms}
use link_ear.Player.Session.{
  StreamingSession, Sink, AudioPlayer, AudioPlayerEvent, cache, restart_decoder, silence,
  position_at, restart_streaming, restart,
}

module _ {A : Type 0} where
  abbrev pub cache_view : StreamingSession A → PlaybackCacheStatus → PlaybackCacheView
  cache_view session status =
      let (buffered_from_ms, buffered_until) =
        stream_pcm_cache_window session.pcm session.duration_ms in
      record {
        session_id = session.session_id;
        track_id = session.track_id;
        status = status;
        buffered_from_ms = buffered_from_ms;
        buffered_until_ms = buffered_until;
        duration_ms = session.duration_ms;
        error = none;
      }

  abbrev pub is_ready : StreamingSession A → ℕ → Bool
  is_ready session position = stream_pcm_ready_for_position session.pcm position session.duration_ms

  -- The player without the samples of its session when the position lies outside of them.
  abbrev pub redirected :
      AudioPlayer A → StreamingSession A → PlaybackTrack → ℕ → Bool → AudioPlayer A
  redirected player session track position outside =
      if outside
      then record player {
        streaming = some (restart_decoder session track position);
        sink = silence player.sink;
      }
      else record player { streaming = some session }

  abbrev pub session_view : Option (StreamingSession A) → List PlaybackCacheView
  session_view none = []
  session_view (some session) = cache_view session buffering ∷ []

  abbrev pub cache_events : Option String → Option (StreamingSession A) → List AudioPlayerEvent
  cache_events operation_id session = map (cache operation_id) (session_view session)

  abbrev pub without_events :
      Option (AudioPlayer A) → Option (AudioPlayer A × List AudioPlayerEvent)
  without_events none = none
  without_events (some player) = some (player, [])

  abbrev pub seek_in :
      AudioPlayer A
      → Option (StreamingSession A)
      → ℕ
      → Bool
      → ℤ
      → Option (AudioPlayer A × List AudioPlayerEvent)
  seek_in player none position playing now_micros =
      without_events (restart player position playing now_micros)
  seek_in player (some streaming) position playing now_micros =
      let start = min position streaming.duration_ms in
      let session = record streaming { position_ms = start } in
      let moved = record player { streaming = some session; position_ms = start } in
      let outside =
        ltb start session.pcm.base_position_ms
        || ltb (min (buffered_until_ms session.pcm) session.duration_ms) start in
      let waits = redirected moved session session.track start outside in
      if is_ready session start
      then without_events (restart_streaming moved start playing)
      else some (record waits { playing = false }, cache_events none waits.streaming)

  -- `none` is an error.
  unfoldable pub seek :
      AudioPlayer A → ℕ → Bool → ℤ → Option (AudioPlayer A × List AudioPlayerEvent)
  unfolding restart restart_streaming restart_decoder stream_pcm_ready_for_position
      stream_pcm_cache_window buffered_until_ms
  seek player position playing now_micros =
      seek_in player player.streaming position playing now_micros

  abbrev pub is_prepared : Option (StreamingSession A) → String → String → ℕ → Bool
  is_prepared none session_id track_id position = false
  is_prepared (some streaming) session_id track_id position =
      (streaming.session_id == session_id)
      && ((streaming.track_id == track_id)
          && is_ready streaming (min position streaming.duration_ms))

  abbrev pub started : Option (AudioPlayer A) → Option (AudioPlayer A × Bool)
  started none = none
  started (some player) = some (player, true)

  unfoldable pub start_prepared_stream :
      AudioPlayer A → String → String → ℕ → Bool → Option (AudioPlayer A × Bool)
  unfolding restart_streaming stream_pcm_ready_for_position
  start_prepared_stream player session_id track_id position playing =
      if not (is_prepared player.streaming session_id track_id position)
      then some (player, false)
      else started (restart_streaming player position playing)

  abbrev pub set_sink : Option (Sink A) → Bool → Option (Sink A)
  set_sink none playing = none
  set_sink (some sink) playing = some (record sink { playing = playing })

  -- A stream without a sink that is to play.
  abbrev pub play_session :
      AudioPlayer A → StreamingSession A → ℤ → Option (AudioPlayer A × List AudioPlayerEvent)
  play_session player session now_micros =
      let position = position_at player now_micros in
      if is_ready session position
      then without_events (restart_streaming player position true)
      else some (record player { playing = false }, cache_events none (some session))

  abbrev pub set_session_playing :
      AudioPlayer A
      → StreamingSession A
      → Option (Sink A)
      → Bool
      → ℤ
      → Option (AudioPlayer A × List AudioPlayerEvent)
  set_session_playing player session (some sink) playing now_micros =
      some (record player { playing = playing; sink = set_sink (some sink) playing }, [])
  set_session_playing player session none playing now_micros =
      if playing
      then play_session (record player { playing = true }) session now_micros
      else some (record player { playing = false }, [])

  abbrev pub audio_before_end : Option (DecodedAudio A) → ℕ → Bool
  audio_before_end none position = false
  audio_before_end (some audio) position = ltb position (duration_ms audio)

  abbrev pub set_audio_playing :
      AudioPlayer A → Bool → ℤ → Bool → Option (AudioPlayer A × List AudioPlayerEvent)
  set_audio_playing player wanted now_micros sink_empty =
      let position = position_at player now_micros in
      let playing = wanted && audio_before_end player.audio position in
      let changed = record player {
        position_ms = position;
        started_at_micros = now_micros;
        playing = playing;
      } in
      if playing && (is_some player.sink && sink_empty)
      then without_events (restart (record changed { sink = none }) position playing now_micros)
      else if playing && (not (is_some player.sink) && is_some player.audio)
      then without_events (restart changed position playing now_micros)
      else some (record changed { sink = set_sink player.sink playing }, [])

  abbrev pub set_playing_in :
      AudioPlayer A
      → Option (StreamingSession A)
      → Bool
      → ℤ
      → Bool
      → Option (AudioPlayer A × List AudioPlayerEvent)
  set_playing_in player (some session) playing now_micros sink_empty =
      set_session_playing player session player.sink playing now_micros
  set_playing_in player none playing now_micros sink_empty =
      set_audio_playing player playing now_micros sink_empty

  -- `sink_empty` is the answer of the sink's `empty`.
  unfoldable pub set_playing :
      AudioPlayer A → Bool → ℤ → Bool → Option (AudioPlayer A × List AudioPlayerEvent)
  unfolding position_at restart restart_streaming stream_pcm_ready_for_position
      stream_pcm_cache_window duration_ms
  set_playing player playing now_micros sink_empty =
      set_playing_in player player.streaming playing now_micros sink_empty
