-- ===== src/Player/Pcm.antt =====
-- src/player.rs: SharedPcm, the window of decoded samples between the decoder and the output device. Its
-- lock makes each method one step. The products that the source takes in u128 do not overflow.
pub mod Frames
pub mod Decoded
pub mod Source
pub mod Window
pub mod Steps
pub mod Reader
pub mod Time
use link_ear.Prelude.{
  ℕ, ◌-◌, ◌*◌, ◌/◌, min, max, String, Bool, true, false, ◌&&◌, ◌||◌, Option, none, some, List, [],
  ◌++◌, ltb, leb, if◌then◌else◌, is_some, ◌==◌, ◌!=◌, string_eq, nat_eq, bool_eq, option_eq, length,
  get_elem?, drop,
}
use link_ear.Prelude.Words.{saturating_add_u64, saturating_mul_u64}
use link_ear.Player.Stream.{stream_pcm_trim_granularity_ms, stream_ready_for_position}

-- A is f32. The rates and the channels are not zero.
pub record StreamingPcmState (A : Type 0) : Type 0 where
  pub samples : List A
  pub channels : Option ℕ
  pub sample_rate : Option ℕ
  pub base_position_ms : ℕ
  pub dropped_samples : ℕ
  pub complete : Bool
  pub canceled : Bool
  pub error : Option String

pub data PcmSample (A : Type 0) : Type 0 where
  ready : (value : A) → PcmSample A
  waiting : PcmSample A
  finished : PcmSample A
  failed : (message : String) → PcmSample A
  stopped : PcmSample A

abbrev pub format_changed : Option ℕ → Option ℕ → ℕ → ℕ → Bool
format_changed (some existing_channels) (some existing_rate) channels sample_rate =
    (existing_channels != channels) || (existing_rate != sample_rate)
format_changed none existing_rate channels sample_rate = false
format_changed (some existing_channels) none channels sample_rate = false

abbrev both : Option ℕ → Option ℕ → Option (ℕ × ℕ)
both (some channels) (some sample_rate) = some (channels, sample_rate)
both none sample_rate = none
both (some channels) none = none

abbrev pub duration_of : ℕ → Option (ℕ × ℕ) → ℕ
duration_of count none = 0
duration_of count (some (channels, sample_rate)) =
    saturating_mul_u64 count 1000 / sample_rate / channels

module _ {A : Type 0} where
  unfoldable pub new : StreamingPcmState A
  new = record {
    samples = [];
    channels = none;
    sample_rate = none;
    base_position_ms = 0;
    dropped_samples = 0;
    complete = false;
    canceled = false;
    error = none;
  }

  unfoldable pub set_base_position : StreamingPcmState A → ℕ → StreamingPcmState A
  set_base_position s position_ms =
      if length s.samples == 0 then record s { base_position_ms = position_ms } else s

  -- `none` is the error "audio format changed while streaming".
  unfoldable pub set_spec : StreamingPcmState A → ℕ → ℕ → Option (StreamingPcmState A)
  set_spec s channels sample_rate =
      if format_changed s.channels s.sample_rate channels sample_rate
      then none
      else some (record s { channels = some channels; sample_rate = some sample_rate })

  unfoldable pub push_samples : StreamingPcmState A → List A → StreamingPcmState A
  push_samples s samples = record s { samples = s.samples ++ samples }

  -- The frames that lie before a position, as far as they are there.
  abbrev pub frames_to_drop : StreamingPcmState A → ℕ → ℕ → ℕ → ℕ
  frames_to_drop s channels sample_rate retain_from_ms =
      min ((retain_from_ms - s.base_position_ms) * sample_rate / 1000) (length s.samples / channels)

  abbrev pub dropping : StreamingPcmState A → ℕ → ℕ → ℕ → StreamingPcmState A
  dropping s channels sample_rate frames =
      let samples_to_drop = min (frames * channels) (length s.samples) in
      record s {
        samples = drop samples_to_drop s.samples;
        dropped_samples = saturating_add_u64 s.dropped_samples samples_to_drop;
        base_position_ms = saturating_add_u64 s.base_position_ms (frames * 1000 / sample_rate);
      }

  abbrev pub trim_to : StreamingPcmState A → ℕ → ℕ → ℕ → StreamingPcmState A
  trim_to s channels sample_rate retain_from_ms =
      let frames = frames_to_drop s channels sample_rate retain_from_ms in
      if leb retain_from_ms s.base_position_ms
      then s
      else if ltb (retain_from_ms - s.base_position_ms) stream_pcm_trim_granularity_ms
      then s
      else if frames == 0
      then s
      else dropping s channels sample_rate frames

  abbrev pub trim_with : StreamingPcmState A → Option ℕ → Option ℕ → ℕ → StreamingPcmState A
  trim_with s (some channels) (some sample_rate) retain_from_ms =
      trim_to s channels sample_rate retain_from_ms
  trim_with s none sample_rate retain_from_ms = s
  trim_with s (some channels) none retain_from_ms = s

  unfoldable pub trim_before : StreamingPcmState A → ℕ → ℕ → StreamingPcmState A
  trim_before s position_ms retain_behind_ms =
      trim_with s s.channels s.sample_rate (position_ms - retain_behind_ms)

  unfoldable pub fail : StreamingPcmState A → String → StreamingPcmState A
  fail s message = record s { error = some message }

  unfoldable pub complete : StreamingPcmState A → StreamingPcmState A
  complete s = record s { complete = true }

  unfoldable pub cancel : StreamingPcmState A → StreamingPcmState A
  cancel s = record s { canceled = true }

  unfoldable pub spec : StreamingPcmState A → Option (ℕ × ℕ)
  spec s = both s.channels s.sample_rate

  unfoldable pub duration_ms : StreamingPcmState A → ℕ
  unfolding spec
  duration_ms s = duration_of (length s.samples) (spec s)

  unfoldable pub buffered_until_ms : StreamingPcmState A → ℕ
  unfolding duration_ms
  buffered_until_ms s = saturating_add_u64 s.base_position_ms (duration_ms s)

  abbrev looked_up : StreamingPcmState A → Option A → PcmSample A
  looked_up s (some value) = ready value
  looked_up s none = if s.complete then finished else waiting

  abbrev checked_for_error : StreamingPcmState A → ℕ → Option String → PcmSample A
  checked_for_error s index (some message) = failed message
  checked_for_error s index none = looked_up s (get_elem? s.samples index)

  -- One attempt; `waiting` when nothing has come in 250 ms.
  unfoldable pub sample : StreamingPcmState A → ℕ → PcmSample A
  sample s index = if s.canceled then stopped else checked_for_error s index s.error

  unfoldable pub stream_pcm_ready_for_position : StreamingPcmState A → ℕ → ℕ → Bool
  unfolding spec buffered_until_ms stream_ready_for_position
  stream_pcm_ready_for_position pcm position_ms duration =
      leb pcm.base_position_ms position_ms
      && (is_some (spec pcm)
          && stream_ready_for_position position_ms duration (min (buffered_until_ms pcm) duration)
              pcm.complete)

  unfoldable pub stream_pcm_cache_window : StreamingPcmState A → ℕ → ℕ × ℕ
  unfolding buffered_until_ms
  stream_pcm_cache_window pcm duration =
      let buffered_from_ms = min pcm.base_position_ms duration in
      (buffered_from_ms, max (min (buffered_until_ms pcm) duration) buffered_from_ms)
