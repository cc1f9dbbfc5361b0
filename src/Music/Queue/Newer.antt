-- ===== src/Music/Queue/Newer.antt =====
-- src/music_state.rs: queue states from other peers are applied by their age, so that the order in
-- which they arrive does not matter.
use link_ear.Prelude.{
  ℕ, ◌≡◌, ◌≢◌, ◌⊎◌, true, false, none, List, arith, if◌then◌else◌, string_eq, nat_eq, bool_eq,
  option_eq,
}
use link_ear.Prelude.Int.{ℤ}
use link_ear.Core.Types.{QueueItem, QueueState}
use link_ear.Music.State.{MusicState}
use link_ear.Music.Voting.{invalidate_stale_queue_vote}
use link_ear.Music.Queue.{is_queue_state_newer, apply_remote_queue_state}

-- The shared part of the state.
abbrev pub shared : MusicState → List QueueItem × ℕ × ℤ
shared m = (m.queue, m.queue_version, m.queue_updated_at)

invalidate-shared : (m : MusicState) → shared (invalidate_stale_queue_vote m).0 ≡ shared m
unfolding invalidate_stale_queue_vote
invalidate-shared m = ground arith

-- To be newer is a strict order of the pairs of time and version, and compares any two of them.
pub newer_order :
    (v w u : ℕ) (s t r : ℤ)
    → (is_queue_state_newer v s v s ≡ false)
      × (is_queue_state_newer v s w t ≡ true
          → is_queue_state_newer w t u r ≡ true
          → is_queue_state_newer v s u r ≡ true)
      × (is_queue_state_newer v s w t ≡ false
          → is_queue_state_newer w t v s ≡ false
          → (v ≡ w) × (s ≡ t))
unfolding is_queue_state_newer
newer_order v w u s t r = (ground arith, ground arith, λ a b. (ground arith, ground arith))

abbrev incoming : QueueState → List QueueItem × ℕ × ℤ
incoming q = (q.items, q.version, q.updated_at_micros)

-- What a peer shares after a remote queue state: the state, if it is newer, and else what it had.
shared-apply :
    (m : MusicState) (q : QueueState)
    → shared (apply_remote_queue_state m q).0 ≡ (
        if is_queue_state_newer q.version q.updated_at_micros m.queue_version m.queue_updated_at
        then incoming q
        else shared m)
unfolding apply_remote_queue_state
shared-apply m q = ground (
  arith,
  invalidate-shared (record m {
    queue = q.items;
    queue_version = q.version;
    queue_updated_at = q.updated_at_micros;
  }),
)

-- Two queue states of different age, applied in either order, leave the same queue, version and time.
pub apply_remote-commutes :
    (m : MusicState) (p q : QueueState)
    → ((p.version ≢ q.version) ⊎ (p.updated_at_micros ≢ q.updated_at_micros))
    → shared (apply_remote_queue_state (apply_remote_queue_state m p).0 q).0
      ≡ shared (apply_remote_queue_state (apply_remote_queue_state m q).0 p).0
apply_remote-commutes m p q h =
    let newer = λ (x y : QueueState).
      newer_order x.version y.version m.queue_version x.updated_at_micros y.updated_at_micros
        m.queue_updated_at in
    let there =
      newer_order p.version q.version p.version p.updated_at_micros q.updated_at_micros
        p.updated_at_micros in
    ground (
      arith,
      (newer p q).1,
      (newer q p).1,
      there.0,
      there.1,
      there.2,
      shared-apply m p,
      shared-apply m q,
      shared-apply (apply_remote_queue_state m p).0 q,
      shared-apply (apply_remote_queue_state m q).0 p,
    )

refuse_older :
    (m : MusicState) (q : QueueState)
    → is_queue_state_newer q.version q.updated_at_micros m.queue_version m.queue_updated_at ≡ false
    → apply_remote_queue_state m q ≡ (m, none)
unfolding apply_remote_queue_state
refuse_older m q h = ground arith

-- A queue state that has been applied, or was too old, is not applied again: the second time nothing
-- changes.
pub apply_remote_twice :
    (m : MusicState) (q : QueueState)
    → let m' = (apply_remote_queue_state m q).0 in apply_remote_queue_state m' q ≡ (m', none)
unfolding is_queue_state_newer
apply_remote_twice m q =
    refuse_older (apply_remote_queue_state m q).0 q (ground (arith, shared-apply m q))
