-- ===== src/Player/Session/Prepare.antt =====
-- src/player.rs: what AudioPlayer is given to play: a stream to prepare, or decoded audio. The threads that
-- download and decode a stream start with its new state.
use link_ear.Prelude.{
  ℕ, min, String, Bool, true, false, not, ◌&&◌, ◌||◌, Option, none, some, List, [], ◌∷◌, ltb,
  if◌then◌else◌, is_some, ◌==◌, string_eq, nat_eq, bool_eq, option_eq,
}
use link_ear.Prelude.Int.{ℤ, pos}
use link_ear.Core.Types.{PlaybackTrack, PlaybackCacheView, PlaybackCacheStatus, ready, buffering}
use link_ear.Player.Bytes
use link_ear.Player.Pcm
use link_ear.Player.Pcm.{StreamingPcmState, stream_pcm_ready_for_position, stream_pcm_cache_window}
use link_ear.Player.Pcm.Decoded.{DecodedAudio}
use link_ear.Player.Session.{
  StreamingSession, AudioPlayer, AudioPlayerEvent, prepared, cache, restart_decoder, restart,
  restart_streaming, position_at, silence,
}
use link_ear.Player.Session.Control.{redirected, is_ready}

module _ {A : Type 0} where
  abbrev pub track_view :
      String → PlaybackTrack → StreamingPcmState A → PlaybackCacheStatus → PlaybackCacheView
  track_view session_id track pcm status =
      let (buffered_from_ms, buffered_until_ms) = stream_pcm_cache_window pcm track.duration_ms in
      record {
        session_id = session_id;
        track_id = track.track_id;
        status = status;
        buffered_from_ms = buffered_from_ms;
        buffered_until_ms = buffered_until_ms;
        duration_ms = track.duration_ms;
        error = none;
      }

  abbrev pub streaming_pcm : StreamingPcmState A → Option (StreamingSession A) → StreamingPcmState A
  streaming_pcm pcm none = pcm
  streaming_pcm pcm (some session) = session.pcm

  -- The session is the one to prepare.
  abbrev pub prepare_again :
      AudioPlayer A
      → StreamingSession A
      → Option String
      → String
      → PlaybackTrack
      → ℕ
      → AudioPlayer A × List AudioPlayerEvent
  prepare_again player streaming operation_id session_id track position =
      let session = record streaming { position_ms = position } in
      let known = record player {
        track_id = some track.track_id;
        session_id = some session_id;
        position_ms = position;
        started_at_micros = pos 0;
        playing = false;
        streaming = some session;
      } in
      let (from, until) = stream_pcm_cache_window session.pcm track.duration_ms in
      let outside = ltb position session.pcm.base_position_ms || ltb until position in
      let waits = redirected known session track position outside in
      if stream_pcm_ready_for_position session.pcm position track.duration_ms
      then (
        known,
        prepared operation_id session_id track.track_id until
            ∷ cache operation_id (track_view session_id track session.pcm ready)
            ∷ [],
      )
      else (
        waits,
        cache operation_id
              (track_view session_id track (streaming_pcm session.pcm waits.streaming) buffering)
            ∷ [],
      )

  abbrev pub prepare_new :
      AudioPlayer A → String → PlaybackTrack → ℕ → AudioPlayer A × List AudioPlayerEvent
  prepare_new player session_id track position =
      let session : StreamingSession A = record {
        session_id = session_id;
        track_id = track.track_id;
        track = track;
        duration_ms = track.duration_ms;
        pcm = Pcm.new;
        bytes = Bytes.new;
        position_ms = position;
      } in
      (
        record {
          sink = none;
          track_id = some track.track_id;
          session_id = some session_id;
          audio = none;
          streaming = some session;
          position_ms = position;
          started_at_micros = pos 0;
          playing = false;
        },
        [],
      )

  abbrev pub prepare_in :
      AudioPlayer A
      → Option (StreamingSession A)
      → Option String
      → String
      → PlaybackTrack
      → ℕ
      → AudioPlayer A × List AudioPlayerEvent
  prepare_in player none operation_id session_id track position =
      prepare_new player session_id track position
  prepare_in player (some session) operation_id session_id track position =
      if (session.session_id == session_id) && (session.track_id == track.track_id)
      then prepare_again player session operation_id session_id track position
      else prepare_new player session_id track position

  unfoldable pub prepare_stream :
      AudioPlayer A
      → Option String
      → String
      → PlaybackTrack
      → ℕ
      → AudioPlayer A × List AudioPlayerEvent
  unfolding restart_decoder stream_pcm_ready_for_position stream_pcm_cache_window Pcm.new Bytes.new
  prepare_stream player operation_id session_id track position_ms =
      prepare_in player player.streaming operation_id session_id track
        (min position_ms track.duration_ms)

  -- `audio` is what decoding brings; with an error the answer is `none`, and the stream has been canceled.
  unfoldable pub load :
      AudioPlayer A
      → String
      → Option (DecodedAudio A)
      → ℕ
      → Bool
      → ℤ
      → AudioPlayer A × Option (AudioPlayer A)
  unfolding restart
  load player track_id none position playing now_micros =
      (record player { streaming = none; sink = silence player.sink }, none)
  load player track_id (some audio) position playing now_micros =
      let loaded = record player {
        streaming = none;
        sink = silence player.sink;
        track_id = some track_id;
        session_id = none;
        audio = some audio;
      } in
      (loaded, restart loaded position playing now_micros)

  abbrev pub recovered : Option (AudioPlayer A) → Option (AudioPlayer A × Bool)
  recovered none = none
  recovered (some player) = some (player, true)

  abbrev pub recover_in :
      AudioPlayer A → Option (StreamingSession A) → ℕ → ℤ → Option (AudioPlayer A × Bool)
  recover_in player (some session) position now_micros =
      if is_ready session position
      then recovered (restart_streaming player position player.playing)
      else some (record player { position_ms = position }, false)
  recover_in player none position now_micros =
      if is_some player.audio
      then recovered (restart player position player.playing now_micros)
      else some (record player { playing = false }, false)

  -- `reopened` tells whether an output device could be opened; `none` is an error.
  unfoldable pub recover_output_device : AudioPlayer A → Bool → ℤ → Option (AudioPlayer A × Bool)
  unfolding position_at restart restart_streaming stream_pcm_ready_for_position
  recover_output_device player reopened now_micros =
      let position = position_at player now_micros in
      let silent = record player { sink = none } in
      if not reopened then none else recover_in silent player.streaming position now_micros
