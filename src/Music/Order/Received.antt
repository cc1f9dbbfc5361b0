-- ===== src/Music/Order/Received.antt =====
-- src/music_state.rs: the states of other peers, as a peer receives them one after another.
use link_ear.Prelude.{
  ◌≡◌, refl, sym, ap, ◌∙◌, inl, inr, some, if◌then◌else◌, Bool-cases, arith, string_eq, nat_eq,
  bool_eq, option_eq,
}
use mathlib.Core.Option.{map}
use link_ear.Prelude.Int.{ℤ}
use link_ear.Core.Types.{PlaybackState}
use link_ear.Music.State.{MusicState, playback_state}
use link_ear.Music.Position.{normalize_remote_playback_state}
use link_ear.Music.Phase.{set_playback_state}
use link_ear.Music.Order.{playback_order_key, should_apply_playback_state}
use link_ear.Music.Order.Laws.{Apart, but_anchor, stays}

playback_state-set_playback_state :
    (m : MusicState) (s : PlaybackState) → playback_state (set_playback_state m s).0 ≡ some s
unfolding set_playback_state playback_state
playback_state-set_playback_state m s = ground arith

-- What a state that is stored if it applies leaves of the state that is held.
stored_if_newer :
    (m : MusicState) (held s : PlaybackState)
    → playback_state m ≡ some held
    → playback_state
        (if should_apply_playback_state (playback_state m) s then (set_playback_state m s).0 else m)
      ≡ some (if should_apply_playback_state (some held) s then s else held)
stored_if_newer m held s here = elim (Bool-cases (should_apply_playback_state (some held) s)) [
  | inl newer ↦ rw here (rw newer (playback_state-set_playback_state m s))
  | inr older ↦ rw here (rw older here)
]

-- A peer that holds a state receives two others in either order. Each is normalized with the time of its
-- receipt, which differs between the two orders, and is stored by set_playback_state if it applies to what
-- is held then. Where the keys of the three states are all different, the peer holds the same state in the
-- end but for the anchor time, whatever the times of receipt.
pub receive_commutes :
    (m : MusicState) (held a b : PlaybackState) (a_first b_second b_first a_second : ℤ)
    → playback_state m ≡ some held
    → Apart held a
    → Apart held b
    → Apart a b
    → let receive = λ (m : MusicState) (s : PlaybackState) (received_at : ℤ).
      let n = normalize_remote_playback_state s received_at in
      if should_apply_playback_state (playback_state m) n then (set_playback_state m n).0 else m in
      map but_anchor (playback_state (receive (receive m a a_first) b b_second))
      ≡ map but_anchor (playback_state (receive (receive m b b_first) a a_second))
unfolding normalize_remote_playback_state playback_order_key
receive_commutes m held a b a_first b_second b_first a_second here ha hb ab =
    let a1 = normalize_remote_playback_state a a_first in
    let b2 = normalize_remote_playback_state b b_second in
    let b1 = normalize_remote_playback_state b b_first in
    let a2 = normalize_remote_playback_state a a_second in
    let one = if should_apply_playback_state (some held) a1 then a1 else held in
    let other = if should_apply_playback_state (some held) b1 then b1 else held in
    let after_a =
      if should_apply_playback_state (playback_state m) a1
      then (set_playback_state m a1).0
      else m in
    let after_b =
      if should_apply_playback_state (playback_state m) b1
      then (set_playback_state m b1).0
      else m in
    ap (map but_anchor) (stored_if_newer after_a one b2 (stored_if_newer m held a1 here))
    ∙ ap some (stays held a1 a2 b2 b1 ha hb ab refl refl refl refl)
    ∙ ap (map but_anchor) (sym (stored_if_newer after_b other a2 (stored_if_newer m held b1 here)))
