-- ===== src/Music/Order.antt =====
-- src/music_state.rs: which of two playback states wins.
pub mod Laws
pub mod Received
use link_ear.Prelude.{
  ℕ, String, Bool, true, not, ◌&&◌, ◌||◌, Option, none, some, ltb, if◌then◌else◌, ◌==◌, ◌!=◌,
  string_eq, nat_eq, bool_eq, option_eq,
}
use link_ear.Prelude.Int.{ℤ, ltb_ℤ, int_eq}
use link_ear.Prelude.Text.{str_lt}
use link_ear.Core.Types.{PlaybackState}

-- `(issued_at_micros, state_version, leader_peer_id)`, compared as Rust compares tuples.
unfoldable pub playback_order_key : PlaybackState → ℤ × ℕ × String
playback_order_key s = (s.issued_at_micros, s.state_version, s.leader_peer_id)

abbrev pub key_lt : ℤ × ℕ × String → ℤ × ℕ × String → Bool
key_lt (i, v, p) (j, w, q) = ltb_ℤ i j || ((i == j) && (ltb v w || ((v == w) && str_lt p q)))

abbrev pub key_eq : ℤ × ℕ × String → ℤ × ℕ × String → Bool
key_eq (i, v, p) (j, w, q) = (i == j) && (v == w) && (p == q)

abbrev track_id_of : PlaybackState → Option String
track_id_of s = elim s.track [ none ↦ none | some track ↦ some track.track_id ]

abbrev replaces : PlaybackState → PlaybackState → Bool
replaces current next =
    if not (key_eq (playback_order_key next) (playback_order_key current))
    then key_lt (playback_order_key current) (playback_order_key next)
    else ((track_id_of current == track_id_of next)
        && (current.leader_peer_id == next.leader_peer_id)
        && (ltb_ℤ current.anchor_time_micros next.anchor_time_micros
            || (current.position_ms != next.position_ms)
            || (current.playing != next.playing)))

unfoldable pub should_apply_playback_state : Option PlaybackState → PlaybackState → Bool
unfolding playback_order_key
should_apply_playback_state none next = true
should_apply_playback_state (some current) next = replaces current next
