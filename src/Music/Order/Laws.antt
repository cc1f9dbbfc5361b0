-- ===== src/Music/Order/Laws.antt =====
-- src/music_state.rs: should_apply_playback_state.
use link_ear.Prelude.{
  ℕ, String, ◌≡◌, ◌∙◌, inl, inr, Bool, true, false, not, ◌&&◌, ◌||◌, some, arith, ltb,
  if◌then◌else◌, Bool-cases, ◌==◌, string_eq, nat_eq, bool_eq, option_eq, beq_refl,
}
use mathlib.Core.Path.{subst}
use link_ear.Prelude.Int.{ℤ, pos, ltb_ℤ, int_eq}
use link_ear.Prelude.Text.{str_lt, str_lt_irrefl, str_lt_trans, str_lt_total}
use link_ear.Core.Types.{PlaybackState}
use link_ear.Music.Order.{playback_order_key, key_lt, key_eq, should_apply_playback_state}

-- The part of a key behind the time.
abbrev rest_lt : ℕ → String → ℕ → String → Bool
rest_lt v p w q = ltb v w || ((v == w) && str_lt p q)

rest_lt_trans :
    (v w u : ℕ) (p q r : String)
    → rest_lt v p w q ≡ true
    → rest_lt w q u r ≡ true
    → rest_lt v p u r ≡ true
rest_lt_trans v w u p q r h k = ground (arith, str_lt_trans p q r)

-- A key compares by time and then by the rest.
lex_trans :
    (i j k : ℤ) (b c d : Bool)
    → (b ≡ true → c ≡ true → d ≡ true)
    → (ltb_ℤ i j || ((i == j) && b)) ≡ true
    → (ltb_ℤ j k || ((j == k) && c)) ≡ true
    → (ltb_ℤ i k || ((i == k) && d)) ≡ true
lex_trans i j k b c d f h l = ground arith

key_lt_trans : (a b c : ℤ × ℕ × String) → key_lt a b ≡ true → key_lt b c ≡ true → key_lt a c ≡ true
key_lt_trans (i, v, p) (j, w, q) (k, u, r) h l =
    lex_trans i j k (rest_lt v p w q) (rest_lt w q u r) (rest_lt v p u r)
      (rest_lt_trans v w u p q r) h l

key_lt_irrefl : (a : ℤ × ℕ × String) → key_lt a a ≡ false
key_lt_irrefl (i, v, p) = ground (arith, str_lt_irrefl p)

key_lt_total : (a b : ℤ × ℕ × String) → key_lt a b ≡ false → key_lt b a ≡ false → key_eq a b ≡ true
key_lt_total (i, v, p) (j, w, q) h l = ground (arith, str_lt_total p q, string_eq.beq_iff p q)

key_lt_ne : (a b : ℤ × ℕ × String) → key_lt a b ≡ true → key_lt b a ≡ false
key_lt_ne a b h = elim (Bool-cases (key_lt b a)) [
  | inl l ↦ cc (key_lt_trans a b a h l, key_lt_irrefl a)
  | inr l ↦ l
]

key_eq_symm : (a b : ℤ × ℕ × String) → key_eq a b ≡ key_eq b a
key_eq_symm (i, v, p) (j, w, q) = ground (arith, string_eq.beq_iff p q, string_eq.beq_iff q p)

-- Different order keys: the time, the version or the leader differs.
abbrev pub Apart : PlaybackState → PlaybackState → Type 0
Apart a b = key_eq (playback_order_key a) (playback_order_key b) ≡ false

apply-Apart :
    (a b : PlaybackState)
    → Apart a b
    → should_apply_playback_state (some a) b ≡ key_lt (playback_order_key a) (playback_order_key b)
unfolding should_apply_playback_state
apply-Apart a b h = ground (arith, key_eq_symm (playback_order_key a) (playback_order_key b))

-- Of two states with different keys exactly one replaces the other.
pub replace_one_way :
    (a b : PlaybackState)
    → Apart a b
    → should_apply_playback_state (some a) b ≡ not (should_apply_playback_state (some b) a)
replace_one_way a b h = ground (
  arith,
  apply-Apart a b,
  apply-Apart b a,
  key_eq_symm (playback_order_key a) (playback_order_key b),
  key_lt_ne (playback_order_key a) (playback_order_key b),
  key_lt_total (playback_order_key a) (playback_order_key b),
)

-- What two states have in common that differ in their anchors only.
abbrev pub but_anchor : PlaybackState → PlaybackState
but_anchor s = record s { anchor_time_micros = pos 0 }

-- Of three states with different keys the one that stays does not depend on the order.
pub stays :
    (c a a' b b' : PlaybackState)
    → Apart c a
    → Apart c b
    → Apart a b
    → playback_order_key a ≡ playback_order_key a'
    → playback_order_key b ≡ playback_order_key b'
    → but_anchor a ≡ but_anchor a'
    → but_anchor b ≡ but_anchor b'
    → let first = if should_apply_playback_state (some c) a then a else c in
      let second = if should_apply_playback_state (some c) b' then b' else c in
      but_anchor (if should_apply_playback_state (some first) b then b else first)
      ≡ but_anchor (if should_apply_playback_state (some second) a' then a' else second)
stays c a a' b b' ca cb ab ka kb sa sb =
    let key = playback_order_key in
    ground (
      arith,
      apply-Apart c a ca,
      apply-Apart c b' (subst (λ k. key_eq (key c) k ≡ false) kb cb),
      apply-Apart a b ab,
      apply-Apart b' a' (
          subst (λ k. key_eq k (key a') ≡ false) kb
            (subst (λ k. key_eq (key b) k ≡ false) ka (key_eq_symm (key b) (key a) ∙ ab))),
      apply-Apart c b cb,
      apply-Apart c a' (subst (λ k. key_eq (key c) k ≡ false) ka ca),
      key_lt_ne (key a) (key b),
      key_lt_total (key a) (key b),
      key_lt_trans (key c) (key a) (key b),
      key_lt_trans (key c) (key b) (key a),
    )

-- A state does not replace itself: the message that brings it a second time changes nothing.
pub not_replaced_by_itself : (s : PlaybackState) → should_apply_playback_state (some s) s ≡ false
unfolding should_apply_playback_state playback_order_key
not_replaced_by_itself s = ground (
  arith,
  str_lt_irrefl s.leader_peer_id,
  beq_refl s.leader_peer_id,
  bool_eq.beq_iff s.playing s.playing,
)
