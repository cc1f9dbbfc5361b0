-- ===== src/Player/Pcm/Steps.antt =====
-- src/player.rs: the steps of the decoder and the player on a SharedPcm.
use link_ear.Prelude.{
  ℕ, ◌-◌, ◌≤◌, ◌<◌, String, ◌≡◌, refl, sym, ap, ◌∙◌, false, some, List, [], ◌++◌, arith, ◌==◌,
  string_eq, nat_eq, bool_eq, option_eq, length, length-append,
}
use mathlib.Core.Path.{subst}
use link_ear.Prelude.{if_elim}
use link_ear.Prelude.Words.{u64_max}
use link_ear.Player.Pcm.{
  StreamingPcmState, new, set_base_position, set_spec, format_changed, push_samples, trim_before,
  fail, complete, cancel,
}
use link_ear.Player.Pcm.Window.{IsWindow, format-IsSpec, trim_with-IsWindow, drop-append}

module _ {A : Type 0} where
  -- The states that are reached, with all samples that have been pushed.
  pub data Reachable : List A → StreamingPcmState A → Type 0 where
    initial : Reachable [] new
    based :
        {pushed : List A} {s : StreamingPcmState A} (position_ms : ℕ)
        → Reachable pushed s
        → Reachable pushed (set_base_position s position_ms)
    formatted :
        {pushed : List A} {s t : StreamingPcmState A} (channels sample_rate : ℕ)
        → Reachable pushed s
        → 0 < channels
        → 0 < sample_rate
        → set_spec s channels sample_rate ≡ some t
        → Reachable pushed t
    pushes :
        {pushed : List A} {s : StreamingPcmState A} (samples : List A)
        → Reachable pushed s
        → length (pushed ++ samples) ≤ u64_max
        → Reachable (pushed ++ samples) (push_samples s samples)
    trims :
        {pushed : List A} {s : StreamingPcmState A} (position_ms retain_behind_ms : ℕ)
        → Reachable pushed s
        → Reachable pushed (trim_before s position_ms retain_behind_ms)
    fails :
        {pushed : List A} {s : StreamingPcmState A} (message : String)
        → Reachable pushed s
        → Reachable pushed (fail s message)
    completes :
        {pushed : List A} {s : StreamingPcmState A}
        → Reachable pushed s
        → Reachable pushed (complete s)
    cancels :
        {pushed : List A} {s : StreamingPcmState A}
        → Reachable pushed s
        → Reachable pushed (cancel s)

  set_base-IsWindow :
      (pushed : List A) (s : StreamingPcmState A) (position_ms : ℕ)
      → IsWindow pushed s
      → IsWindow pushed (set_base_position s position_ms)
  unfolding set_base_position
  set_base-IsWindow pushed s position_ms window =
      if_elim (IsWindow pushed) (length s.samples == 0) (λ empty. window) λ full. window

  set_spec_fields :
      (s t : StreamingPcmState A) (channels sample_rate : ℕ)
      → set_spec s channels sample_rate ≡ some t
      → (format_changed s.channels s.sample_rate channels sample_rate ≡ false)
        × (record s { channels = some channels; sample_rate = some sample_rate } ≡ t)
  unfolding set_spec
  set_spec_fields s t channels sample_rate h = ground arith

  set_spec-IsWindow :
      (pushed : List A) (s t : StreamingPcmState A) (channels sample_rate : ℕ)
      → 0 < channels
      → 0 < sample_rate
      → set_spec s channels sample_rate ≡ some t
      → IsWindow pushed s
      → IsWindow pushed t
  set_spec-IsWindow pushed s t channels sample_rate p q h (held, within, format) =
      let (same, result) = set_spec_fields s t channels sample_rate h in
      subst (IsWindow pushed) result (
        held,
        within,
        format-IsSpec s.dropped_samples channels sample_rate s.channels s.sample_rate p q format
            same,
      )

  push-IsWindow :
      (pushed samples : List A) (s : StreamingPcmState A)
      → IsWindow pushed s
      → IsWindow (pushed ++ samples) (push_samples s samples)
  unfolding push_samples
  push-IsWindow pushed samples s (held, within, format) = (
    ap (λ xs. xs ++ samples) held ∙ sym (drop-append s.dropped_samples pushed samples within),
    omega (arith, length-append pushed samples),
    format,
  )

  -- After any steps, the state holds what the decoder has pushed but for the samples that were dropped from
  -- the start, and these are whole frames.
  pub reachable-IsWindow :
      {pushed : List A} {s : StreamingPcmState A}
      → Reachable pushed s
      → IsWindow pushed s × (length pushed ≤ u64_max)
  unfolding new trim_before fail complete cancel
  reachable-IsWindow initial = ((refl, omega arith, (refl, refl)), omega arith)
  reachable-IsWindow (based {pushed} {s} position_ms r) =
      let (window, u) = reachable-IsWindow r in (set_base-IsWindow pushed s position_ms window, u)
  reachable-IsWindow (formatted {pushed} {s} {t} channels sample_rate r p q h) =
      let (window, u) = reachable-IsWindow r in
      (set_spec-IsWindow pushed s t channels sample_rate p q h window, u)
  reachable-IsWindow (pushes {pushed} {s} samples r u) =
      (push-IsWindow pushed samples s (reachable-IsWindow r).0, u)
  reachable-IsWindow (trims {pushed} {s} position_ms retain_behind_ms r) =
      let (window, u) = reachable-IsWindow r in
      (
        trim_with-IsWindow pushed s s.channels s.sample_rate (position_ms - retain_behind_ms) u
            (refl, refl) window,
        u,
      )
  reachable-IsWindow (fails message r) = reachable-IsWindow r
  reachable-IsWindow (completes r) = reachable-IsWindow r
  reachable-IsWindow (cancels r) = reachable-IsWindow r
