-- ===== src/Core/Pending/Laws.antt =====
-- src/core.rs: what a PendingPlayback knows of its peers, after any sequence of ready messages.
use link_ear.Prelude.{
  String, ◌≡◌, refl, ◌∙◌, ◌↔◌, true, ◌&&◌, ◌||◌, List, [], ◌∷◌, arith, ◌==◌, string_eq, nat_eq,
  bool_eq, option_eq,
}
use link_ear.Prelude.Words.{Instant}
use link_ear.Prelude.HashSet.{
  HashSet, contains, insert, Distinct, is_subset, contains-insert, is_subset_of, is_subset-contains,
  is_subset_of_length, length-le_of_is_subset,
}
use link_ear.Core.Types.{PlaybackState}
use link_ear.Core.Pending.{PendingPlayback, new, mark_ready, ready_count, expected_count, is_ready}

-- Ready peers are expected peers, and no set lists a peer twice.
pub record IsValid (p : PendingPlayback) : Type 0 where
  pub expected_distinct : Distinct p.expected_peers
  pub ready_distinct : Distinct p.ready_peers
  pub ready_expected : is_subset p.ready_peers p.expected_peers ≡ true

-- A ready message from each of the peers, in order.
abbrev pub mark_all : PendingPlayback → List String → PendingPlayback
mark_all p [] = p
mark_all p (peer ∷ peers) = mark_all (mark_ready p peer).0 peers

pub mark_ready-IsValid :
    (p : PendingPlayback) (peer : String) → IsValid p → IsValid (mark_ready p peer).0
unfolding mark_ready insert is_subset
mark_ready-IsValid p peer v = ground arith

mark_all-IsValid :
    (p : PendingPlayback) (peers : List String) → IsValid p → IsValid (mark_all p peers)
mark_all-IsValid p [] v = v
mark_all-IsValid p (peer ∷ peers) v =
    mark_all-IsValid (mark_ready p peer).0 peers (mark_ready-IsValid p peer v)

mark_ready-expected :
    (p : PendingPlayback) (peer : String) → (mark_ready p peer).0.expected_peers ≡ p.expected_peers
unfolding mark_ready
mark_ready-expected p peer = ground arith

mark_all-expected :
    (p : PendingPlayback) (peers : List String)
    → (mark_all p peers).expected_peers ≡ p.expected_peers
mark_all-expected p [] = refl
mark_all-expected p (peer ∷ peers) =
    mark_all-expected (mark_ready p peer).0 peers ∙ mark_ready-expected p peer

mark_ready-contains :
    (p : PendingPlayback) (peer a : String)
    → contains (mark_ready p peer).0.ready_peers a
      ≡ (contains p.ready_peers a || (contains p.expected_peers a && (peer == a)))
unfolding mark_ready
mark_ready-contains p peer a =
    ground (arith, contains-insert p.ready_peers peer a, string_eq.beq_iff peer a)

mark_all-contains :
    (p : PendingPlayback) (peers : List String) (a : String)
    → contains (mark_all p peers).ready_peers a
      ≡ (contains p.ready_peers a || (contains p.expected_peers a && contains peers a))
unfolding contains
mark_all-contains p [] a = ground arith
mark_all-contains p (peer ∷ peers) a = ground (
  arith,
  mark_all-contains (mark_ready p peer).0 peers a,
  mark_ready-contains p peer a,
  mark_ready-expected p peer,
)

is_ready_iff :
    (p : PendingPlayback) → IsValid p → (is_ready p ≡ true) ↔ (ready_count p ≡ expected_count p)
unfolding is_ready ready_count expected_count
is_ready_iff p v = (
  (λ h. omega (
    arith,
    length-le_of_is_subset p.expected_peers p.ready_peers v.expected_distinct h,
    length-le_of_is_subset p.ready_peers p.expected_peers v.ready_distinct v.ready_expected,
  )),
  (λ h.
      is_subset_of_length p.ready_peers p.expected_peers v.ready_distinct v.ready_expected
        (omega arith)),
)

new-IsValid :
    (s : PlaybackState) (expected : HashSet String) (d : Instant)
    → Distinct expected
    → IsValid (new s expected d)
unfolding new is_subset
new-IsValid s expected d h = record {
  expected_distinct = h;
  ready_distinct = tt;
  ready_expected = refl;
}

heard_of_ready :
    (s : PlaybackState) (expected : HashSet String) (d : Instant) (peers : List String)
    → is_ready (mark_all (new s expected d) peers) ≡ true
    → is_subset expected peers ≡ true
unfolding is_ready new contains
heard_of_ready s expected d peers h = is_subset_of expected peers λ a m. ground (
  arith,
  mark_all-contains (new s expected d) peers a,
  mark_all-expected (new s expected d) peers,
  is_subset-contains (mark_all (new s expected d) peers).expected_peers
      (mark_all (new s expected d) peers).ready_peers a h,
)

ready_of_heard :
    (s : PlaybackState) (expected : HashSet String) (d : Instant) (peers : List String)
    → is_subset expected peers ≡ true
    → is_ready (mark_all (new s expected d) peers) ≡ true
unfolding is_ready new contains
ready_of_heard s expected d peers h =
    is_subset_of (mark_all (new s expected d) peers).expected_peers
      (mark_all (new s expected d) peers).ready_peers
      λ a m. ground (
        arith,
        mark_all-contains (new s expected d) peers a,
        mark_all-expected (new s expected d) peers,
        is_subset-contains expected peers a h,
      )

-- After any sequence of ready messages, a pending playback with distinct expected peers is ready
-- exactly when every expected peer has sent one, and exactly when as many peers are ready as are
-- expected.
pub mark_all-is_ready :
    (s : PlaybackState) (expected : HashSet String) (d : Instant) (peers : List String)
    → Distinct expected
    → let p = mark_all (new s expected d) peers in
      ((is_ready p ≡ true) ↔ (is_subset expected peers ≡ true))
      × ((is_ready p ≡ true) ↔ (ready_count p ≡ expected_count p))
mark_all-is_ready s expected d peers h = (
  (heard_of_ready s expected d peers, ready_of_heard s expected d peers),
  is_ready_iff (mark_all (new s expected d) peers)
      (mark_all-IsValid (new s expected d) peers (new-IsValid s expected d h)),
)
