-- ===== src/Health/Loss.antt =====
-- src/playback_health.rs: when the loss of a majority is reported.
use mathlib.Core.Path.{subst}
use link_ear.Prelude.{
  ℕ, ◌≤◌, ◌<◌, String, ◌≡◌, refl, sym, ◌⊎◌, inl, inr, Bool, true, false, Option, none, some, List,
  [], ◌∷◌, arith, Option-cases, string_eq, nat_eq, bool_eq, option_eq, All,
}
use link_ear.Prelude.Words.{Duration, Instant, duration_since}
use link_ear.Prelude.HashSet.{HashSet}
use link_ear.Core.Types.{PlaybackBufferStatusKind}
use link_ear.Health.{
  PlaybackHealth, PlaybackHealthDecision, stable, majority_lost, reset_session, reset_session_same,
  mark_status, decide, evaluate,
}

-- What happens during a session: a status arrives, or the health is evaluated.
pub data Tick : Type 0 where
  mark :
      (peer_id : String) (status : PlaybackBufferStatusKind) (buffered_until_ms : Option ℕ)
      (now : Instant)
      → Tick
  check : (expected_peers : HashSet String) (position_ms : ℕ) (now : Instant) → Tick

-- The evaluation found too few healthy peers.
abbrev pub Unrecovered : PlaybackHealthDecision → Type 0
Unrecovered (stable healthy threshold) = healthy < threshold
Unrecovered (majority_lost healthy threshold) = healthy < threshold

abbrev pub IsStable : PlaybackHealthDecision → Type 0
IsStable (stable healthy threshold) = Unit
IsStable (majority_lost healthy threshold) = ⊥

-- A loss that has begun at `since` and has not ended, and whether it has been reported.
abbrev Lost : PlaybackHealth → String → Instant → Bool → Type 0
Lost h session since reported =
    (h.session_id ≡ some session) × (h.loss_since ≡ some since) × (h.paused_for_loss ≡ reported)

module _ (session : String) (loss_grace stale_after : Duration) where
  -- The state after some ticks, and the decisions of the evaluations.
  abbrev pub run : PlaybackHealth → List Tick → PlaybackHealth × List PlaybackHealthDecision
  run h [] = (h, [])
  run h (mark peer_id status buffered_until_ms now ∷ ts) =
      run (mark_status h session peer_id status buffered_until_ms now) ts
  run h (check peers position_ms now ∷ ts) =
      let (h', d) = evaluate h session peers position_ms now loss_grace stale_after in
      let (h'', ds) = run h' ts in (h'', d ∷ ds)

  mark-Lost :
      (h : PlaybackHealth) (peer : String) (status : PlaybackBufferStatusKind) (until : Option ℕ)
      (now since : Instant) (reported : Bool)
      → Lost h session since reported
      → Lost (mark_status h session peer status until now) session since reported
  unfolding mark_status
  mark-Lost h peer status until now since reported l =
      ground (arith, string_eq.beq_iff session session)

  -- An unrecovered evaluation leaves the loss as it is, or reports it, which it does only once and not
  -- before the grace period is over.
  Unhealed : PlaybackHealth → PlaybackHealthDecision → Instant → Instant → Bool → Type 0
  Unhealed h' d now since reported =
      (IsStable d × Lost h' session since reported)
      ⊎ ((reported ≡ false) × (loss_grace ≤ duration_since now since) × Lost h' session since true)

  decide-Lost :
      (h : PlaybackHealth) (healthy threshold : ℕ) (now since : Instant) (reported : Bool)
      → Lost h session since reported
      → let (h', d) = decide h healthy threshold now loss_grace in
        Unrecovered d → Unhealed h' d now since reported
  unfolding decide Unhealed
  decide-Lost h healthy threshold now since reported l u = ground arith

  check-Lost :
      (h : PlaybackHealth) (peers : HashSet String) (position : ℕ) (now since : Instant)
      (reported : Bool)
      → Lost h session since reported
      → let (h', d) = evaluate h session peers position now loss_grace stale_after in
        Unrecovered d → Unhealed h' d now since reported
  unfolding evaluate
  check-Lost h peers position now since reported l u =
      decide-Lost (reset_session h session) _ _ now since reported
        (subst (λ k. Lost k session since reported) (sym (reset_session_same h session l.0)) l) u

  reported_stays :
      (h : PlaybackHealth) (since : Instant) (ts : List Tick)
      → Lost h session since true
      → All Unrecovered (run h ts).1
      → All IsStable (run h ts).1
  unfolding Unhealed
  reported_stays h since [] l u = tt
  reported_stays h since (mark peer status until now ∷ ts) l u =
      reported_stays (mark_status h session peer status until now) since ts
        (mark-Lost h peer status until now since true l) u
  reported_stays h since (check peers position now ∷ ts) l u =
      elim (check-Lost h peers position now since true l u.0) [
        | inl (s, k) ↦ (
          s,
          reported_stays (evaluate h session peers position now loss_grace stale_after).0 since ts k
              u.1,
        )
        | inr (b, g, k) ↦ cc
      ]

  run-Lost :
      (h : PlaybackHealth) (since : Instant) (reported : Bool) (ts : List Tick)
      → Lost h session since reported
      → All Unrecovered (run h ts).1
      → (b : Bool) × Lost (run h ts).0 session since b
  unfolding Unhealed
  run-Lost h since reported [] l u = (reported, l)
  run-Lost h since reported (mark peer status until now ∷ ts) l u =
      run-Lost (mark_status h session peer status until now) since reported ts
        (mark-Lost h peer status until now since reported l) u
  run-Lost h since reported (check peers position now ∷ ts) l u =
      elim (check-Lost h peers position now since reported l u.0) [
        | inl (s, k) ↦
            run-Lost (evaluate h session peers position now loss_grace stale_after).0 since reported
              ts k u.1
        | inr (b, g, k) ↦
            run-Lost (evaluate h session peers position now loss_grace stale_after).0 since true ts
              k u.1
      ]

  decide_first :
      (h : PlaybackHealth) (healthy threshold : ℕ) (now : Instant)
      → h.session_id ≡ some session
      → let (h', d) = decide h healthy threshold now loss_grace in
        Unrecovered d
        → (since : Instant) × (b : Bool) × Lost h' session since b
          × (h.loss_since ≡ none → since ≡ now)
          × ((a t : ℕ) → d ≡ majority_lost a t → b ≡ true)
  unfolding decide
  decide_first h healthy threshold now e u = (
    elim h.loss_since [ none ↦ now | some t ↦ t ],
    (decide h healthy threshold now loss_grace).0.paused_for_loss,
    (ground arith, ground arith, refl),
    (λ n. ground arith),
    (λ a t l. ground arith),
  )

  reset-session : (h : PlaybackHealth) → (reset_session h session).session_id ≡ some session
  unfolding reset_session
  reset-session h = elim (Option-cases h.session_id) [
    | inl n ↦ ground arith
    | inr (x, n) ↦ ground (arith, string_eq.beq_iff x session)
  ]

  lost-Unrecovered :
      (h : PlaybackHealth) (healthy threshold : ℕ) (now : Instant) (a t : ℕ)
      → (decide h healthy threshold now loss_grace).1 ≡ majority_lost a t
      → Unrecovered (decide h healthy threshold now loss_grace).1
  unfolding decide
  lost-Unrecovered h healthy threshold now a t e = ground arith

  -- The loss of the majority is reported once: after the report, no later evaluation in the session
  -- reports it again as long as each finds too few healthy peers, whatever statuses arrive between them.
  pub lost_reported_once :
      (h : PlaybackHealth) (peers : HashSet String) (position : ℕ) (now : Instant)
      (healthy threshold : ℕ) (ts : List Tick)
      → (evaluate h session peers position now loss_grace stale_after).1
        ≡ majority_lost healthy threshold
      → All Unrecovered (run (evaluate h session peers position now loss_grace stale_after).0 ts).1
      → All IsStable (run (evaluate h session peers position now loss_grace stale_after).0 ts).1
  unfolding evaluate
  lost_reported_once h peers position now healthy threshold ts e u =
      let (since, b, l, first, reported) =
        decide_first (reset_session h session) _ _ now (reset-session h)
          (lost-Unrecovered (reset_session h session) _ _ now healthy threshold e) in
      let h' = (evaluate h session peers position now loss_grace stale_after).0 in
      reported_stays h' since ts
        (subst (λ c. Lost h' session since c) (reported healthy threshold e) l) u

  -- It is reported no sooner than the grace period after the evaluation that first found too few healthy
  -- peers, where every evaluation between the two found too few.
  pub lost_after_grace :
      (h : PlaybackHealth) (peers peers' : HashSet String) (position position' : ℕ)
      (first now : Instant) (ts : List Tick) (healthy threshold : ℕ)
      → (reset_session h session).loss_since ≡ none
      → Unrecovered (evaluate h session peers position first loss_grace stale_after).1
      → All Unrecovered
          (run (evaluate h session peers position first loss_grace stale_after).0 ts).1
      → (evaluate
          (run (evaluate h session peers position first loss_grace stale_after).0 ts).0
          session
          peers'
          position'
          now
          loss_grace
          stale_after).1
        ≡ majority_lost healthy threshold
      → loss_grace ≤ duration_since now first
  unfolding evaluate Unhealed
  lost_after_grace h peers peers' position position' first now ts healthy threshold n u us e =
      let (since, b, l, started, reported) =
        decide_first (reset_session h session) _ _ first (reset-session h) u in
      let h' = (evaluate h session peers position first loss_grace stale_after).0 in
      let (c, m) = run-Lost h' since b ts l us in
      let last = (run h' ts).0 in
      let decision = (evaluate last session peers' position' now loss_grace stale_after).1 in
      let unhealed =
        check-Lost last peers' position' now since c m
          (lost-Unrecovered (reset_session last session) _ _ now healthy threshold e) in
      elim unhealed [
        | inl (s, k) ↦ absurd (subst IsStable e s)
        | inr (f, g, k) ↦ subst (λ t. loss_grace ≤ duration_since now t) (started n) g
      ]
