-- ===== src/Health/Publish.antt =====
-- src/playback_health.rs: which of the local statuses are published to the room.
use link_ear.Prelude.{
  ℕ, ◌≤◌, String, ◌≡◌, ◌≢◌, true, false, Option, some, arith, string_eq, nat_eq, bool_eq, option_eq,
}
use link_ear.Prelude.Words.{Duration, Instant, duration_since}
use link_ear.Prelude.HashMap
use link_ear.Prelude.HashMap.{get-insert, get-insert_self}
use link_ear.Core.Types.{PlaybackBufferStatusKind}
use link_ear.Buffer.Operation.{same_kind}
use link_ear.Health.{
  PlaybackHealth, PlaybackHealthStatus, reset_session_same, mark_local_status_for_publish,
}

-- Within a session, marking the local status always records it. A status that is published becomes the
-- published one; otherwise the published statuses stay as they are. Those of other peers stay in any
-- case. A published status of the same kind as the one before it comes at least the interval later.
pub publish_lem :
    (h : PlaybackHealth) (session peer other : String) (kind : PlaybackBufferStatusKind)
    (until : Option ℕ) (now : Instant) (interval : Duration) (advance : ℕ)
    → h.session_id ≡ some session
    → let next : PlaybackHealthStatus = record {
      status = kind;
      buffered_until_ms = until;
      updated_at = now;
    } in
      let (h', published) =
        mark_local_status_for_publish h session peer kind until now interval advance in
      (HashMap.get h'.statuses peer ≡ some next)
      × (published ≡ true → HashMap.get h'.published_statuses peer ≡ some next)
      × (published ≡ false → h'.published_statuses ≡ h.published_statuses)
      × (peer ≢ other
          → HashMap.get h'.published_statuses other ≡ HashMap.get h.published_statuses other)
      × ((previous : PlaybackHealthStatus)
          → HashMap.get h.published_statuses peer ≡ some previous
          → same_kind previous.status kind ≡ true
          → published ≡ true
          → interval ≤ duration_since now previous.updated_at)
unfolding mark_local_status_for_publish
publish_lem h session peer other kind until now interval advance e =
    let same = reset_session_same h session e in
    let next : PlaybackHealthStatus = record {
      status = kind;
      buffered_until_ms = until;
      updated_at = now;
    } in
    (
      ground (arith, get-insert_self h.statuses peer next, same),
      (λ p. ground (arith, get-insert_self h.published_statuses peer next, same)),
      (λ p. ground (arith, same)),
      (λ p. ground (
        arith,
        get-insert h.published_statuses peer other next,
        string_eq.beq_iff peer other,
        same,
      )),
      (λ previous g k p. ground (arith, same)),
    )
