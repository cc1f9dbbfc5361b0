-- ===== src/Music/Phase/Start.antt =====
-- src/music_state.rs: how a prepared track starts.
use mathlib.Core.Path.{subst}
use link_ear.Prelude.{
  suc, ◌≤◌, ◌<◌, String, ◌≡◌, refl, sym, ap, ◌∙◌, ◌↔◌, ◌⊎◌, inl, inr, Bool-cases, true, ◌&&◌, ◌||◌,
  none, some, List, [], ◌∷◌, arith, is_some, ◌==◌, string_eq, nat_eq, bool_eq, option_eq, beq_refl,
}
use link_ear.Prelude.Int.{ℤ}
use link_ear.Prelude.Words.{Duration, Instant, u64_max}
use link_ear.Prelude.HashSet.{
  HashSet, contains, contains-insert, is_subset, is_subset_of, is_subset-contains,
}
use link_ear.Core.Types.{PeerId, QueueItem}
use link_ear.Music.State.{
  MusicState, PlaybackPhase, preparing, active, idle, PreparingPlayback, is_leader, is_ready,
  ready_count, expected_count, leader, mark_ready,
}
use link_ear.Music.Phase.{
  start_phase, PlaybackStart, begin_playback_prepare, mark_playback_ready,
  maybe_start_pending_playback,
}

-- No expected peer is without an answer.
abbrev pub AllReady : PreparingPlayback → Type 0
AllReady p =
    (peer : String) → contains p.expected_peers peer ≡ true → contains p.ready_peers peer ≡ true

-- The local peer leads what is prepared, and its peers are ready or their time is over.
abbrev pub MayStart : PlaybackPhase → PeerId → Instant → Type 0
MayStart (preparing p) local now =
    (p.state.leader_peer_id ≡ local) × (AllReady p ⊎ (p.deadline ≤ now))
MayStart _ local now = ⊥

abbrev pub Starts : MusicState → MusicState → PlaybackPhase → PlaybackStart → ℤ → Type 0
Starts m m' (preparing p) start now_micros =
    (m' ≡ record m {
      playback_version = start.state.state_version;
      playback_phase = active start.state;
    })
    × (start.state.playing ≡ true)
    × (start.state.position_ms ≡ 0)
    × (start.state.issued_at_micros ≡ now_micros)
    × (start.state.session_id ≡ p.state.session_id)
    × (start.state.track ≡ p.state.track)
    × (start.state.leader_peer_id ≡ p.state.leader_peer_id)
    × (start.ready ≡ ready_count p)
    × (start.expected ≡ expected_count p)
    × (m.playback_version < u64_max → start.state.state_version ≡ suc m.playback_version)
Starts m m' _ start now_micros = ⊥

StartLaw : MusicState → PlaybackPhase → PeerId → Instant → ℤ → Duration → Type 0
StartLaw m phase local now now_micros delay =
    let (m', started) = start_phase m phase local now now_micros delay in
    ((is_some started ≡ true) ↔ MayStart phase local now)
    × (started ≡ none → m' ≡ m)
    × ((start : PlaybackStart) → started ≡ some start → Starts m m' phase start now_micros)

is_ready-AllReady : (p : PreparingPlayback) → is_ready p ≡ true → AllReady p
unfolding is_ready
is_ready-AllReady p h peer = is_subset-contains p.expected_peers p.ready_peers peer h

AllReady-is_ready : (p : PreparingPlayback) → AllReady p → is_ready p ≡ true
unfolding is_ready
AllReady-is_ready p all = is_subset_of p.expected_peers p.ready_peers all

may_start :
    (m : MusicState) (p : PreparingPlayback) (local : PeerId) (now : Instant) (now_micros : ℤ)
    (delay : Duration)
    → is_some (start_phase m (preparing p) local now now_micros delay).1 ≡ true
    → MayStart (preparing p) local now
unfolding is_leader
may_start m p local now now_micros delay h = elim (Bool-cases (is_ready p)) [
  | inl ready ↦ (
    ground (arith, string_eq.beq_iff p.state.leader_peer_id local),
    inl (is_ready-AllReady p ready),
  )
  | inr unready ↦
      (ground (arith, string_eq.beq_iff p.state.leader_peer_id local), inr (ground arith))
]

starts_if :
    (m : MusicState) (p : PreparingPlayback) (local : PeerId) (now : Instant) (now_micros : ℤ)
    (delay : Duration)
    → MayStart (preparing p) local now
    → is_some (start_phase m (preparing p) local now now_micros delay).1 ≡ true
unfolding is_leader
starts_if m p local now now_micros delay (leads, inl all) =
    ground (arith, string_eq.beq_iff p.state.leader_peer_id local, AllReady-is_ready p all)
starts_if m p local now now_micros delay (leads, inr over) =
    ground (arith, string_eq.beq_iff p.state.leader_peer_id local)

start_phase_lem :
    (m : MusicState) (phase : PlaybackPhase) (local : PeerId) (now : Instant) (now_micros : ℤ)
    (delay : Duration)
    → StartLaw m phase local now now_micros delay
unfolding StartLaw
start_phase_lem m (idle s) local now now_micros delay =
    (((λ h. cc), (λ h. absurd h)), (λ h. refl), (λ start h. cc))
start_phase_lem m (active s) local now now_micros delay =
    (((λ h. cc), (λ h. absurd h)), (λ h. refl), (λ start h. cc))
start_phase_lem m (preparing p) local now now_micros delay = (
  (may_start m p local now now_micros delay, starts_if m p local now now_micros delay),
  (λ h. ground arith),
  (λ start h. ground arith),
)

-- What has started is not pending any more.
started_once :
    (m m' : MusicState) (phase : PlaybackPhase) (start : PlaybackStart) (now_micros : ℤ)
    → Starts m m' phase start now_micros
    → (local : PeerId) (later : Instant) (later_micros : ℤ) (delay : Duration)
    → (maybe_start_pending_playback m' local later later_micros delay).1 ≡ none
unfolding maybe_start_pending_playback
started_once m m' (preparing p) start now_micros starts local later later_micros delay =
    ap (λ phase. (start_phase m' phase local later later_micros delay).1)
      (ap (λ s. s.playback_phase) starts.0)
started_once m m' (idle s) start now_micros starts local later later_micros delay = absurd starts
started_once m m' (active s) start now_micros starts local later later_micros delay = absurd starts

-- A pending playback starts exactly when the local peer leads it and either no expected peer is without an
-- answer or the deadline has passed. It then plays its session and track from 0 and is the active state,
-- under the next playback version if that is a u64, and no later call starts it again; otherwise nothing
-- changes.
pub maybe_start_lem :
    (m : MusicState) (local : PeerId) (now : Instant) (now_micros : ℤ) (delay : Duration)
    → let (m', started) = maybe_start_pending_playback m local now now_micros delay in
      ((is_some started ≡ true) ↔ MayStart m.playback_phase local now)
      × (started ≡ none → m' ≡ m)
      × ((start : PlaybackStart)
          → started ≡ some start
          → Starts m m' m.playback_phase start now_micros
            × ((later : Instant) (later_micros : ℤ)
                → (maybe_start_pending_playback m' local later later_micros delay).1 ≡ none))
unfolding maybe_start_pending_playback StartLaw
maybe_start_lem m local now now_micros delay =
    let (m', started) = start_phase m m.playback_phase local now now_micros delay in
    let (exactly, unchanged, starts) =
      start_phase_lem m m.playback_phase local now now_micros delay in
    (
      exactly,
      unchanged,
      (λ start h. (
        starts start h,
        (λ later later_micros.
            started_once m m' m.playback_phase start now_micros (starts start h) local later
              later_micros delay),
      )),
    )

-- The ready messages of the peers for a session, in order.
abbrev pub ready_all : MusicState → String → PeerId → List String → MusicState
ready_all m session local [] = m
ready_all m session local (peer ∷ peers) =
    ready_all (mark_playback_ready m session peer local).0 session local peers

mark_playback_ready-phase :
    (m : MusicState) (p : PreparingPlayback) (session peer : String) (local : PeerId)
    → m.playback_phase ≡ preparing p
    → p.state.session_id ≡ session
    → is_leader p local ≡ true
    → (mark_playback_ready m session peer local).0.playback_phase ≡ preparing (mark_ready p peer).0
unfolding mark_playback_ready
mark_playback_ready-phase m p session peer local ph s l =
    ground (arith, string_eq.beq_iff p.state.session_id session)

mark_ready-keeps :
    (p : PreparingPlayback) (peer : String) (a : String)
    → let q = (mark_ready p peer).0 in
      (q.state ≡ p.state)
      × (q.expected_peers ≡ p.expected_peers)
      × (contains q.ready_peers a
          ≡ (contains p.ready_peers a || (contains p.expected_peers a && (peer == a))))
unfolding mark_ready
mark_ready-keeps p peer a =
    ground (arith, contains-insert p.ready_peers peer a, string_eq.beq_iff peer a)

is_leader-eq :
    (p : PreparingPlayback) (local : PeerId)
    → is_leader p local ≡ true
    → p.state.leader_peer_id ≡ local
unfolding is_leader
is_leader-eq p local h = ground (arith, string_eq.beq_iff p.state.leader_peer_id local)

-- What the messages leave of a pending playback.
Heard : PreparingPlayback → PlaybackPhase → PeerId → List String → Type 0
Heard p phase local peers =
    (q : PreparingPlayback) × (phase ≡ preparing q)
    × (is_leader q local ≡ true)
    × (q.expected_peers ≡ p.expected_peers)
    × ((a : String)
        → contains q.ready_peers a
          ≡ (contains p.ready_peers a || (contains p.expected_peers a && contains peers a)))

ready_all-Heard :
    (m : MusicState) (p : PreparingPlayback) (session : String) (local : PeerId)
    (peers : List String)
    → m.playback_phase ≡ preparing p
    → p.state.session_id ≡ session
    → is_leader p local ≡ true
    → Heard p (ready_all m session local peers).playback_phase local peers
unfolding Heard contains is_leader
ready_all-Heard m p session local [] ph s l = (p, ph, l, refl, (λ a. ground arith))
ready_all-Heard m p session local (peer ∷ peers) ph s l =
    let kept = mark_ready-keeps p peer in
    let (q, qph, ql, qe, qr) =
      ready_all-Heard (mark_playback_ready m session peer local).0 (mark_ready p peer).0 session
        local peers (mark_playback_ready-phase m p session peer local ph s l)
        (ap (λ t. t.session_id) (kept peer).0 ∙ s) (ground (arith, kept peer)) in
    (q, qph, ql, qe ∙ (kept peer).1, (λ a. ground (arith, qr a, kept a)))

Heard-is_ready :
    (p q : PreparingPlayback) (peers : List String)
    → q.expected_peers ≡ p.expected_peers
    → ((a : String)
        → contains q.ready_peers a
          ≡ (contains p.ready_peers a || (contains p.expected_peers a && contains peers a)))
    → is_subset p.expected_peers peers ≡ true
    → is_ready q ≡ true
unfolding is_ready
Heard-is_ready p q peers qe qr h = is_subset_of q.expected_peers q.ready_peers λ a m.
    ground (arith, qr a, is_subset-contains p.expected_peers peers a h, ap (λ e. contains e a) qe)

module _ (m : MusicState) (item : QueueItem) (expected : HashSet String) (deadline : Instant)
    (local : PeerId) (asked_micros : ℤ) where
  begun_phase :
      let (prepared, begun) = begin_playback_prepare m item expected deadline local asked_micros in
      prepared.playback_phase ≡ preparing (leader begun.state expected deadline)
  unfolding begin_playback_prepare
  begun_phase = refl

  begun_leader :
      let (prepared, begun) = begin_playback_prepare m item expected deadline local asked_micros in
      is_leader (leader begun.state expected deadline) local ≡ true
  unfolding begin_playback_prepare is_leader
  begun_leader = beq_refl local

-- A track that the local peer prepares starts at once when all expected peers have answered for its
-- session, in any order and with any other peers between them, before the deadline too.
pub prepared_track_starts :
    (m : MusicState) (item : QueueItem) (expected : HashSet String) (deadline now : Instant)
    (local : PeerId) (asked_micros now_micros : ℤ) (delay : Duration) (peers : List String)
    → is_subset expected peers ≡ true
    → let (prepared, begun) = begin_playback_prepare m item expected deadline local asked_micros in
      let heard = ready_all prepared begun.state.session_id local peers in
      is_some (maybe_start_pending_playback heard local now now_micros delay).1 ≡ true
unfolding Heard leader
prepared_track_starts m item expected deadline now local asked_micros now_micros delay peers h =
    let m' = (begin_playback_prepare m item expected deadline local asked_micros).0 in
    let begun = (begin_playback_prepare m item expected deadline local asked_micros).1 in
    let p = leader begun.state expected deadline in
    let (q, qph, ql, qe, qr) =
      ready_all-Heard m' p begun.state.session_id local peers
        (begun_phase m item expected deadline local asked_micros) refl
        (begun_leader m item expected deadline local asked_micros) in
    (maybe_start_lem (ready_all m' begun.state.session_id local peers) local now now_micros
        delay).0.1
      (subst (λ ph. MayStart ph local now) (sym qph)
        (is_leader-eq q local ql, inl (is_ready-AllReady q (Heard-is_ready p q peers qe qr h))))
