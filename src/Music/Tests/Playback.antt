-- ===== src/Music/Tests/Playback.antt =====
-- src/music_state.rs: positions, controls and the order of playback states.
use link_ear.Prelude.{
  ℕ, ◌/◌, ◌≡◌, refl, false, none, some, [], ◌∷◌, if◌then◌else◌, string_eq, nat_eq, bool_eq,
  option_eq,
}
use link_ear.Prelude.Int.{ℤ, pos, int_eq}
use link_ear.Core.Types.{F32, PlaybackState}
use link_ear.Music.State.{MusicState, active, playback_state}
use link_ear.Music.Order.{playback_order_key, should_apply_playback_state}
use link_ear.Core.Samples.{playing, later_playing, last_playing, item, other_item}
use link_ear.Music.Order.Laws.{not_replaced_by_itself, but_anchor}
use link_ear.Music.Order.Received.{receive_commutes}
use link_ear.Music.Phase.{set_playback_state}
use mathlib.Core.Option.{map}
use link_ear.Music.Position.{normalize_remote_playback_state}

-- At the rate 1.
abbrev real_time : ℕ → F32 → ℕ
real_time micros rate = micros / 1000

abbrev room : MusicState
room = record {
  queue = item ∷ other_item ∷ [];
  queue_version = 2;
  queue_updated_at = pos 30;
  playback_version = 3;
  active_vote = none;
  playback_phase = active playing;
}

abbrev other_room : MusicState
other_room = record (room) { queue = []; playback_version = 9 }

-- The one is received at 7000, then the other at 8000; or the other at 7100, then the one at 9000.
receive_commutes_example :
    let receive = λ (m : MusicState) (s : PlaybackState) (received_at : ℤ).
      let n = normalize_remote_playback_state s received_at in
      if should_apply_playback_state (playback_state m) n then (set_playback_state m n).0 else m in
    map but_anchor
      (playback_state (receive (receive room later_playing (pos 7000)) last_playing (pos 8000)))
    ≡ map but_anchor
        (playback_state (receive (receive room last_playing (pos 7100)) later_playing (pos 9000)))
unfolding playback_order_key playback_state
receive_commutes_example =
    receive_commutes room playing later_playing last_playing (pos 7000) (pos 8000) (pos 7100)
      (pos 9000) refl refl refl refl

not_replaced_by_itself_example : should_apply_playback_state (some playing) playing ≡ false
not_replaced_by_itself_example = not_replaced_by_itself playing
