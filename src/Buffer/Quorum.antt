-- ===== src/Buffer/Quorum.antt =====
-- src/buffer_state.rs: what a quorum says about the peers.
use link_ear.Prelude.{
  ℕ, ◌+◌, ◌-◌, ◌*◌, ◌≤◌, ◌<◌, ◌≡◌, refl, List, [], ◌∷◌, arith, string_eq, nat_eq, bool_eq,
  option_eq, length, count_if,
}
use link_ear.Prelude.Words.{Instant}
use link_ear.Prelude.HashSet.{length-le_of_is_subset}
use link_ear.Prelude.HashMap.{keys, values, Distinct-keys, length-values}
use link_ear.Core.Types.{PlaybackBufferStatusKind}
use link_ear.Buffer.Operation.{
  BufferOperation, BufferPeerStatus, BufferQuorum, waiting, ready, impossible, timed_out, same_kind,
  count, operation_quorum,
}
use link_ear.Buffer.Invariant.{IsValid}

-- The statuses split by their kind.
counts_sum :
    (ss : List BufferPeerStatus)
    → count_if (λ (s : BufferPeerStatus). same_kind s.status PlaybackBufferStatusKind.ready) ss
        + count_if
            (λ (s : BufferPeerStatus). same_kind s.status PlaybackBufferStatusKind.buffering)
            ss
        + count_if (λ (s : BufferPeerStatus). same_kind s.status PlaybackBufferStatusKind.failed) ss
      ≡ length ss
counts_sum [] = refl
counts_sum (s ∷ ss) = ground (arith, counts_sum ss)

statuses_within :
    (o : BufferOperation) → IsValid o → length (values o.statuses) ≤ length o.expected_peers
statuses_within o v = omega (
  arith,
  length-values o.statuses,
  length-le_of_is_subset (keys o.statuses) o.expected_peers
      (Distinct-keys o.statuses v.statuses_distinct) v.statuses_expected,
)

-- The least number that is more than half.
abbrev pub IsMajority : ℕ → ℕ → Type 0
IsMajority n threshold = (n < 2 * threshold) × (2 * threshold ≤ n + 2)

-- The four answers in terms of the expected peers: more than half are ready; or the deadline has passed;
-- or so many have failed that the others are no majority; or none of these.
abbrev pub Meaning : BufferOperation → Instant → BufferQuorum → Type 0
Meaning o now (ready r threshold) =
    IsMajority (length o.expected_peers) threshold
    × (r ≡ count o PlaybackBufferStatusKind.ready)
    × (length o.expected_peers < 2 * r)
Meaning o now (timed_out r threshold) =
    IsMajority (length o.expected_peers) threshold
    × (r ≡ count o PlaybackBufferStatusKind.ready)
    × (2 * r ≤ length o.expected_peers)
    × (o.deadline ≤ now)
Meaning o now (impossible r f threshold) =
    IsMajority (length o.expected_peers) threshold
    × (r ≡ count o PlaybackBufferStatusKind.ready)
    × (f ≡ count o PlaybackBufferStatusKind.failed)
    × (2 * r ≤ length o.expected_peers)
    × (now < o.deadline)
    × (2 * (length o.expected_peers - f) ≤ length o.expected_peers)
Meaning o now (waiting r b f threshold) =
    IsMajority (length o.expected_peers) threshold
    × (r ≡ count o PlaybackBufferStatusKind.ready)
    × (b ≡ count o PlaybackBufferStatusKind.buffering)
    × (f ≡ count o PlaybackBufferStatusKind.failed)
    × (now < o.deadline)
    × (2 * r ≤ length o.expected_peers)
    × (length o.expected_peers < 2 * (length o.expected_peers - f))
    × (r + b + f ≤ length o.expected_peers)

-- For a valid operation, each answer has the least number that is a majority of the expected peers, and the
-- numbers of its peers in the states that it names: a ready quorum has the ready peers for a strict
-- majority of the expected ones; a timed-out one has no such majority, and its deadline has passed; an
-- impossible one is before its deadline, has no ready majority, and the expected peers that have not failed
-- are no majority; a waiting one, with the numbers of the ready, the buffering and the failed peers, is
-- before its deadline, has no ready majority, but a majority that has not failed, and these are together no
-- more than the expected peers.
pub operation_quorum-Meaning :
    (o : BufferOperation) (now : Instant) → IsValid o → Meaning o now (operation_quorum o now)
unfolding operation_quorum
operation_quorum-Meaning o now v =
    let fits = statuses_within o v in ground (arith, counts_sum (values o.statuses))
