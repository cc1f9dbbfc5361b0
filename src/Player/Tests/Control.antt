-- ===== src/Player/Tests/Control.antt =====
-- src/player.rs: seeks in a stream.
use link_ear.Prelude.{
  ℕ, ◌<◌, ◌≡◌, refl, true, false, none, some, [], ◌∷◌, arith, string_eq, nat_eq, bool_eq, option_eq,
}
use link_ear.Prelude.Int.{pos}
use link_ear.Core.Types.{PlaybackTrack, buffering}
use link_ear.Player.Bytes.{StreamingBytesState}
use link_ear.Player.Pcm
use link_ear.Player.Pcm.{StreamingPcmState, stream_pcm_ready_for_position, buffered_until_ms}
use link_ear.Player.Session.{StreamingSession, Sink, silenced, streamed, AudioPlayer, cache}
use link_ear.Player.Session.Control.{cache_view, seek}
use link_ear.Player.Pcm.Source
use link_ear.Player.Pcm.Source.{StreamingPcmSource, yields}
use link_ear.Player.Session.Seek.Running.{seek-plays_on}

abbrev track : PlaybackTrack
track = record {
  track_id = "BV1:1";
  title = "song";
  source_kind = "bilibili";
  bvid = "BV1";
  part = 1;
  duration_ms = 60000;
  audio_url = "";
  referer = "";
  media_init_range = none;
  media_index_range = none;
}

-- Six seconds have been decoded, of one sample each.
abbrev pcm : StreamingPcmState ℕ
pcm = record {
  samples = 1 ∷ 2 ∷ 3 ∷ 4 ∷ 5 ∷ 6 ∷ [];
  channels = some 1;
  sample_rate = some 1;
  base_position_ms = 0;
  dropped_samples = 0;
  complete = false;
  canceled = false;
  error = none;
}

abbrev bytes : StreamingBytesState
bytes = record {
  chunks = [];
  total_bytes = some 6000000;
  canceled = false;
  error = none;
  ranges = record { ranges = [] };
  pinned_ranges = [];
  requested_offsets = [];
}

abbrev session : StreamingSession ℕ
session = record {
  session_id = "s1";
  track_id = "BV1:1";
  track = track;
  duration_ms = 60000;
  pcm = pcm;
  bytes = bytes;
  position_ms = 1000;
}

abbrev sounding : Sink ℕ
sounding = record { playing = true; source = silenced }

abbrev player : AudioPlayer ℕ
player = record {
  sink = some sounding;
  track_id = some "BV1:1";
  session_id = some "s1";
  audio = none;
  streaming = some session;
  position_ms = 1000;
  started_at_micros = pos 0;
  playing = true;
}

-- The stream has come to the second of its six samples.
abbrev source : StreamingPcmSource
source = record {
  pos = 1;
  channels = 1;
  sample_rate = 1;
  base_position_ms = 0;
  dropped_samples = 0;
  position_ms = 1000;
  duration_ms = 60000;
  last_underrun_at = none;
}

abbrev running : AudioPlayer ℕ
running = record player { sink = some (record { playing = true; source = streamed source }) }

seek-plays_on_example :
    (after : AudioPlayer ℕ) × (next : StreamingSession ℕ) × (later : StreamingPcmSource) × (seek
        running 4000 true
        (pos 0)
      ≡ some (after, cache none (cache_view next buffering) ∷ []))
    × (after.streaming ≡ some next)
    × (after.playing ≡ false)
    × (after.position_ms ≡ 4000)
    × (after.sink ≡ some (record { playing = true; source = streamed source }))
    × (Source.next source next.pcm next.pcm next.pcm 7 (λ v. v) ≡ (later, yields 2))
    × (later.position_ms < after.position_ms)
unfolding buffered_until_ms
seek-plays_on_example =
    seek-plays_on running session source 4000 true (pos 0) 7 (λ v. v) 2 refl refl (omega arith)
      (omega arith, omega arith) (omega arith) refl refl refl (omega arith) (omega arith) refl
      (omega arith)
