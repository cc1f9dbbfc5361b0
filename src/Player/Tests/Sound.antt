-- ===== src/Player/Tests/Sound.antt =====
-- src/player.rs: a window of samples in two channels, and requests that are sent again.
use link_ear.Prelude.{
  ℕ, suc, ◌+◌, ◌-◌, ◌*◌, ◌%◌, ◌≤◌, String, ◌≡◌, refl, Bool, true, false, none, some, List, [], ◌∷◌,
  arith, if◌then◌else◌, ◌==◌, string_eq, nat_eq, bool_eq, option_eq, length, get_elem?,
}
use link_ear.Prelude.Words.{u64_max}
use link_ear.MediaCache.Fetch.{http_status, Fetched, ok, err}
use link_ear.Player.Bytes.Held.{bytes_from, length-bytes_from}
use link_ear.Player.Pcm
use link_ear.Player.Pcm.{StreamingPcmState, set_spec, push_samples, trim_before}
use link_ear.Player.Pcm.Window.{IsWindow}
use link_ear.Player.Pcm.Steps.{Reachable, initial, formatted, pushes, trims, reachable-IsWindow}
use link_ear.Player.Pcm.Source.{StreamingPcmSource, yields}
use link_ear.Player.Pcm.Source
use link_ear.Player.Pcm.Reader.{at, goes_on_at, Follows, next-yields, moved-repeats}
use link_ear.Player.Pcm.Time.{trim_before-behind}
use link_ear.Player.Retry.{with_retry}
use link_ear.Player.Retry.Bounded.{IsEnd, with_retry-ends}

abbrev pushed : List ℕ
pushed = 10 ∷ 11 ∷ 20 ∷ 21 ∷ 30 ∷ 31 ∷ 40 ∷ 41 ∷ []

abbrev in_stereo : StreamingPcmState ℕ
in_stereo = record {
  samples = [];
  channels = some 2;
  sample_rate = some 2;
  base_position_ms = 0;
  dropped_samples = 0;
  complete = false;
  canceled = false;
  error = none;
}

-- The first second is dropped.
abbrev moved : StreamingPcmState ℕ
moved = record in_stereo {
  samples = 30 ∷ 31 ∷ 40 ∷ 41 ∷ [];
  base_position_ms = 1000;
  dropped_samples = 4;
}

stereo_reachable : Reachable [] in_stereo
unfolding set_spec Pcm.new
stereo_reachable = formatted 2 2 initial (omega arith) (omega arith) refl

reachable-IsWindow_example :
    IsWindow pushed (trim_before (push_samples in_stereo pushed) 6000 5000)
    × (length pushed ≤ u64_max)
reachable-IsWindow_example =
    reachable-IsWindow (trims 6000 5000 (pushes pushed stereo_reachable (omega arith)))

moved-IsWindow : IsWindow pushed moved
moved-IsWindow = (refl, omega arith, (omega arith, omega arith, refl))

-- The reader has come to the sample of this number.
abbrev reader_at : ℕ → StreamingPcmSource
reader_at pos = record {
  pos = pos;
  channels = 2;
  sample_rate = 2;
  base_position_ms = 0;
  dropped_samples = 0;
  position_ms = 0;
  duration_ms = 60000;
  last_underrun_at = none;
}

reader_at-Follows : (pos : ℕ) → Follows (reader_at pos) moved
reader_at-Follows pos = (omega arith, refl, refl, omega arith)

-- The window has its two frames of one second each, and then only the last.
abbrev moved_on : StreamingPcmState ℕ
moved_on = record moved { samples = 40 ∷ 41 ∷ []; base_position_ms = 2000; dropped_samples = 6 }

moved_on-IsWindow : IsWindow pushed moved_on
moved_on-IsWindow = (refl, omega arith, (omega arith, omega arith, refl))

abbrev after_fifth : StreamingPcmSource
after_fifth = record (reader_at 1) {
  base_position_ms = 1000;
  dropped_samples = 4;
  position_ms = 1000;
}

abbrev louder : ℕ → ℕ
louder v = v * 3

-- The reader is at the fifth sample. Two are dropped after it has looked, and it yields the seventh.
seventh : Source.next (reader_at 4) moved moved_on moved_on 0 louder ≡ (after_fifth, yields 120)
unfolding Source.next
seventh = refl

next-yields_example :
    (a : ℕ) × (get_elem? pushed (goes_on_at (reader_at 4) moved + (6 - 4)) ≡ some a)
    × (120 ≡ louder a)
    × (at after_fifth ≡ suc (goes_on_at (reader_at 4) moved))
    × Follows after_fifth moved
next-yields_example =
    next-yields pushed (reader_at 4) after_fifth moved moved_on moved_on 0 louder 120
      moved_on-IsWindow (reader_at-Follows 4) (omega arith) seventh

fifth_again : Source.next (reader_at 5) moved moved moved 0 louder ≡ (after_fifth, yields 90)
unfolding Source.next
fifth_again = refl

moved-repeats_example :
    (a : ℕ) × (get_elem? pushed (at (reader_at 5) - 5 % 2) ≡ some a)
    × (90 ≡ louder a)
    × (at after_fifth ≤ at (reader_at 5))
moved-repeats_example =
    moved-repeats pushed (reader_at 5) after_fifth moved moved moved 0 louder 90 moved-IsWindow
      (reader_at-Follows 5) (omega arith) (omega arith) (omega arith) refl fifth_again

-- Two seconds of silence.
abbrev silence : List ℕ
silence = bytes_from (λ i. 0) 0 88200

abbrev in_mono : StreamingPcmState ℕ
in_mono = record in_stereo { samples = silence; channels = some 1; sample_rate = some 44100 }

trim_before-behind_example : (trim_before in_mono 6001 5000).base_position_ms + 1 ≡ 6001 - 5000
trim_before-behind_example =
    trim_before-behind in_mono 1 6001 5000 refl refl (omega arith) (omega arith) (omega arith)
      (omega (arith, length-bytes_from (λ i. 0) 0 88200))

abbrev answers : ℕ → Fetched ℕ some ℕ
answers n = if n == 0 then err (http_status "bytes=0-9" 503) else ok 7

abbrev all_true : ℕ → Bool
all_true n = true

abbrev printed : ℕ → String
printed code = if code == 503 then "503 Service Unavailable" else "200 OK"

with_retry-ends_example :
    IsEnd ℕ some answers
      (length (with_retry ℕ some printed all_true answers all_true 3 0).0)
      (with_retry ℕ some printed all_true answers all_true 3 0).1
with_retry-ends_example = with_retry-ends ℕ some printed all_true answers all_true 3 (omega arith)
