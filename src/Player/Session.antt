-- ===== src/Player/Session.antt =====
-- src/player.rs: StreamingSession and the state of AudioPlayer. The session's threads, its output device and
-- the volume are left out; what is sent to the channel of events is answered. The sink stands for rodio's
-- player: whether it plays, and the source that has been appended to it.
pub mod Control
pub mod Prepare
pub mod Laws
pub mod Seek
use link_ear.Prelude.{
  ℕ, ◌/◌, min, String, Bool, false, not, ◌&&◌, Option, none, some, ltb, leb, if◌then◌else◌,
  string_eq, nat_eq, bool_eq, option_eq,
}
use link_ear.Prelude.Int.{ℤ, pos, pos_part, saturating_sub}
use link_ear.Prelude.Words.{saturating_add_u64}
use link_ear.Core.Types.{PlaybackTrack, PlaybackCacheView}
use link_ear.MediaCache.Window.{range_for_window}
use link_ear.Player.Bytes.{StreamingBytesState, prioritize_offset}
use link_ear.Player.Pcm
use link_ear.Player.Pcm.{
  StreamingPcmState, spec, buffered_until_ms, stream_pcm_ready_for_position,
  stream_pcm_cache_window,
}
use link_ear.Player.Pcm.Decoded
use link_ear.Player.Pcm.Decoded.{DecodedAudio, PcmSource, clamp_position_ms, duration_ms}
use link_ear.Player.Pcm.Source
use link_ear.Player.Pcm.Source.{StreamingPcmSource}

pub record StreamingSession (A : Type 0) : Type 0 where
  pub session_id : String
  pub track_id : String
  pub track : PlaybackTrack
  pub duration_ms : ℕ
  pub pcm : StreamingPcmState A
  pub bytes : StreamingBytesState
  pub position_ms : ℕ

-- A source of the session's samples, or of samples that a decoder of before has left: these are canceled.
pub data SinkSource (A : Type 0) : Type 0 where
  decoded : PcmSource A → SinkSource A
  streamed : StreamingPcmSource → SinkSource A
  silenced : SinkSource A

pub record Sink (A : Type 0) : Type 0 where
  pub playing : Bool
  pub source : SinkSource A

pub record AudioPlayer (A : Type 0) : Type 0 where
  pub sink : Option (Sink A)
  pub track_id : Option String
  pub session_id : Option String
  pub audio : Option (DecodedAudio A)
  pub streaming : Option (StreamingSession A)
  pub position_ms : ℕ
  pub started_at_micros : ℤ
  pub playing : Bool

pub data AudioPlayerEvent : Type 0 where
  prepared :
      (operation_id : Option String) (session_id track_id : String) (buffered_until_ms : ℕ)
      → AudioPlayerEvent
  cache : (operation_id : Option String) (view : PlaybackCacheView) → AudioPlayerEvent

abbrev pub with_window_prioritized : StreamingBytesState → Option ℕ → ℕ → ℕ → StreamingBytesState
with_window_prioritized bytes none position duration = bytes
with_window_prioritized bytes (some total) position duration =
    prioritize_offset bytes (range_for_window position duration total).start

abbrev pub elapsed_since : ℤ → ℤ → ℕ
elapsed_since now_micros started_at_micros =
    pos_part (saturating_sub now_micros started_at_micros) / 1000

module _ {A : Type 0} where
  -- `restart_decoder`: the old samples are canceled, which a source that reads them sees.
  unfoldable pub restart_decoder : StreamingSession A → PlaybackTrack → ℕ → StreamingSession A
  unfolding range_for_window prioritize_offset Pcm.new
  restart_decoder session track position = record session {
    track_id = track.track_id;
    track = track;
    duration_ms = track.duration_ms;
    pcm = Pcm.new;
    position_ms = position;
    bytes =
        with_window_prioritized session.bytes session.bytes.total_bytes position track.duration_ms;
  }

  abbrev pub silence_source : SinkSource A → SinkSource A
  silence_source (decoded source) = decoded source
  silence_source (streamed source) = silenced
  silence_source silenced = silenced

  abbrev pub silence : Option (Sink A) → Option (Sink A)
  silence none = none
  silence (some sink) = some (record sink { source = silence_source sink.source })

  abbrev pub clamped_to : Option (DecodedAudio A) → ℕ → ℕ
  clamped_to none position = position
  clamped_to (some audio) position = clamp_position_ms audio position

  abbrev pub position_of : AudioPlayer A → ℤ → Option (StreamingSession A) → ℕ
  position_of player now_micros (some streaming) = min streaming.position_ms streaming.duration_ms
  position_of player now_micros none = clamped_to player.audio (
      if player.playing
      then saturating_add_u64 player.position_ms (elapsed_since now_micros player.started_at_micros)
      else player.position_ms)

  unfoldable pub position_at : AudioPlayer A → ℤ → ℕ
  unfolding saturating_sub clamp_position_ms
  position_at player now_micros = position_of player now_micros player.streaming

  abbrev pub audio_finished : Option (DecodedAudio A) → ℕ → Bool
  audio_finished none position = false
  audio_finished (some audio) position = leb (duration_ms audio) position

  abbrev pub finished_of : AudioPlayer A → ℤ → Option (StreamingSession A) → Bool
  finished_of player now_micros (some streaming) =
      streaming.pcm.complete && leb streaming.duration_ms streaming.position_ms
  finished_of player now_micros none = audio_finished player.audio (position_at player now_micros)

  unfoldable pub is_finished : AudioPlayer A → ℤ → Bool
  unfolding position_at duration_ms
  is_finished player now_micros =
      if not player.playing then false else finished_of player now_micros player.streaming

  unfoldable pub stop : AudioPlayer A → AudioPlayer A
  stop player = record {
    sink = none;
    track_id = none;
    session_id = none;
    audio = none;
    streaming = none;
    position_ms = 0;
    started_at_micros = pos 0;
    playing = false;
  }

  -- The source that reads a session's samples from a position on.
  abbrev pub session_source : StreamingSession A → ℕ → ℕ → ℕ → StreamingPcmSource
  session_source session start channels sample_rate =
      Source.new session.pcm start channels sample_rate session.pcm.base_position_ms start
        session.duration_ms

  abbrev pub played_from : AudioPlayer A → StreamingSession A → ℕ → Bool → ℕ → ℕ → AudioPlayer A
  played_from player session position playing channels sample_rate =
      let start = min position session.duration_ms in
      record player {
        streaming = some (record session { position_ms = start });
        sink = some (record {
          playing = playing;
          source = streamed (session_source session start channels sample_rate);
        });
        track_id = some session.track_id;
        session_id = some session.session_id;
        position_ms = start;
        playing = playing && ltb start session.duration_ms;
      }

  abbrev pub streaming_from :
      AudioPlayer A → StreamingSession A → ℕ → Bool → Option (ℕ × ℕ) → Option (AudioPlayer A)
  streaming_from player session position playing none = none
  streaming_from player session position playing (some (channels, sample_rate)) =
      some (played_from player session position playing channels sample_rate)

  -- `none` is an error.
  abbrev pub restart_session :
      AudioPlayer A → Option (StreamingSession A) → ℕ → Bool → Option (AudioPlayer A)
  restart_session player none position playing = none
  restart_session player (some session) position playing =
      streaming_from player session position playing (spec session.pcm)

  unfoldable pub restart_streaming : AudioPlayer A → ℕ → Bool → Option (AudioPlayer A)
  unfolding Source.new spec
  restart_streaming player position playing =
      restart_session player player.streaming position playing

  abbrev pub restart_audio :
      AudioPlayer A → Option (DecodedAudio A) → ℕ → Bool → ℤ → Option (AudioPlayer A)
  restart_audio player none position wanted now_micros = none
  restart_audio player (some audio) position wanted now_micros =
      let start = clamp_position_ms audio position in
      let playing = wanted && ltb start (duration_ms audio) in
      some (record player {
        sink = some (record { playing = playing; source = decoded (Decoded.new audio start) });
        position_ms = start;
        started_at_micros = now_micros;
        playing = playing;
      })

  -- A sink is always built.
  unfoldable pub restart : AudioPlayer A → ℕ → Bool → ℤ → Option (AudioPlayer A)
  unfolding Decoded.new clamp_position_ms duration_ms
  restart player position wanted now_micros =
      restart_audio player player.audio position wanted now_micros
