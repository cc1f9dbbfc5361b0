-- ===== src/Player/Pcm/Source.antt =====
-- src/player.rs: StreamingPcmSource, the reader of a SharedPcm that the output device pulls samples from.
use link_ear.Prelude.{
  ℕ, ◌+◌, ◌-◌, ◌*◌, ◌/◌, ◌%◌, min, String, ◌&&◌, Option, none, some, leb, if◌then◌else◌, is_none_or,
  string_eq, nat_eq, bool_eq, option_eq,
}
use link_ear.Prelude.Words.{saturating_add_u64, u64_max, Instant, from_secs}
use link_ear.Player.Pcm.{
  StreamingPcmState, PcmSample, ready, waiting, finished, failed, stopped, sample,
  stream_pcm_cache_window,
}

-- Without the names of its session and track. `position_ms` is shared with the other threads, which read it.
pub record StreamingPcmSource : Type 0 where
  pub pos : ℕ
  pub channels : ℕ
  pub sample_rate : ℕ
  pub base_position_ms : ℕ
  pub dropped_samples : ℕ
  pub position_ms : ℕ
  pub duration_ms : ℕ
  pub last_underrun_at : Option Instant

abbrev pub frame_start : ℕ → ℕ → ℕ
frame_start pos channels = pos - pos % channels

unfoldable pub update_position : StreamingPcmSource → StreamingPcmSource
update_position source =
    let position_ms = source.pos / source.channels * 1000 / source.sample_rate in
    record source {
      position_ms = min (saturating_add_u64 source.base_position_ms position_ms) source.duration_ms;
    }

-- What an attempt at the next sample comes to: a sample, with its volume, or no more samples, with the
-- event that is sent, or another attempt, with the event of an underrun or without.
pub data Attempt (A : Type 0) : Type 0 where
  yields : (value : A) → Attempt A
  ended : Attempt A
  broken : (message : String) → Attempt A
  silenced : Attempt A
  buffering : (buffered_from_ms buffered_until_ms : ℕ) → Attempt A
  retries : Attempt A

module _ {A : Type 0} where
  -- `position` is the atomic that the player reads the position from, with its value.
  unfoldable pub new : StreamingPcmState A → ℕ → ℕ → ℕ → ℕ → ℕ → ℕ → StreamingPcmSource
  new shared position_ms channels sample_rate base_position_ms position duration_ms =
      let frames = (position_ms - base_position_ms) * sample_rate / 1000 in
      record {
        pos = frame_start (min (frames * channels) u64_max) channels;
        channels = channels;
        sample_rate = sample_rate;
        base_position_ms = base_position_ms;
        dropped_samples = shared.dropped_samples;
        position_ms = position;
        duration_ms = duration_ms;
        last_underrun_at = none;
      }

  unfoldable pub sync_shared_base_position :
      StreamingPcmSource → StreamingPcmState A → StreamingPcmSource
  sync_shared_base_position source shared =
      let dropped_samples = shared.dropped_samples - source.dropped_samples in
      if leb shared.dropped_samples source.dropped_samples
        && leb shared.base_position_ms source.base_position_ms
      then source
      else record source {
        pos = frame_start (source.pos - dropped_samples) source.channels;
        base_position_ms = shared.base_position_ms;
        dropped_samples = shared.dropped_samples;
      }

  abbrev pub underrun :
      StreamingPcmSource → StreamingPcmState A → Instant → StreamingPcmSource × Attempt A
  underrun source shared now =
      let (buffered_from_ms, buffered_until_ms) =
        stream_pcm_cache_window shared source.duration_ms in
      if is_none_or source.last_underrun_at (λ last. leb (from_secs 1) (now - last))
      then (
        record source { last_underrun_at = some now },
        buffering buffered_from_ms buffered_until_ms,
      )
      else (source, retries)

  abbrev pub attempted :
      StreamingPcmSource
      → StreamingPcmState A
      → Instant
      → (A → A)
      → PcmSample A
      → StreamingPcmSource × Attempt A
  attempted source shared now scaled (ready value) =
      (update_position (record source { pos = source.pos + 1 }), yields (scaled value))
  attempted source shared now scaled finished = (source, ended)
  attempted source shared now scaled (failed message) = (source, broken message)
  attempted source shared now scaled stopped = (source, silenced)
  attempted source shared now scaled waiting = underrun source shared now

  -- An attempt of the loop in `next`. It takes the lock of the samples for `window_start`, then for
  -- `sample`, which may wait 250 ms, and for `stream_pcm_cache_window` after that: `first`, `second` and
  -- `third` are what it finds, since other threads change the samples in between. `scaled` multiplies by
  -- the volume.
  unfoldable pub next :
      StreamingPcmSource
      → (first second third : StreamingPcmState A) → Instant
      → (A → A)
      → StreamingPcmSource × Attempt A
  unfolding sync_shared_base_position update_position sample stream_pcm_cache_window
  next source first second third now scaled =
      let synced = sync_shared_base_position source first in
      attempted synced third now scaled (sample second synced.pos)
