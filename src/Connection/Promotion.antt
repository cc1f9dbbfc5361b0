-- ===== src/Connection/Promotion.antt =====
-- src/connection_state.rs: the steps that the events of a connection share. Each returns the state and
-- the effects that it adds.
use link_ear.Prelude.{
  ℕ, suc, ◌+◌, String, Bool, true, false, not, ◌||◌, Option, none, some, List, [], ◌∷◌, ◌++◌, leb,
  if◌then◌else◌, is_some, ◌==◌, string_eq, nat_eq, bool_eq, option_eq, length,
}
use link_ear.Prelude.Words.{Instant}
use link_ear.Prelude.Text.{display, concat}
use link_ear.Prelude.HashSet
use link_ear.Prelude.HashSet.{HashSet}
use link_ear.Prelude.HashMap
use link_ear.Core.Types.{PeerId}
use link_ear.Connection.Net.{Net, normalize_direct_peer_address, prioritize_multiaddrs}
use link_ear.Connection.Backoff.{
  DirectPromotionBackoff, default, direct_promotion_max_failures, should_attempt, mark_attempt,
  mark_failure, counted, duplicate, format_retry_duration,
}
use link_ear.Connection.State.{
  ConnectionState, ConnectionEffect, status, track_gossip, untrack_gossip, reset_backoff_of,
  dial_direct, close_relay_connections, handoff_settled, gossip_warmup_timeout,
  direct_relay_handoff_grace, is_expired, is_chat_subscribed, is_relay_only, has_direct,
  has_relayed, relay_connections,
}

module _ (net : Net) where
  open net use {Multiaddr, multiaddr_eq}

  -- A state with the effects that led to it.
  abbrev pub WithEffects : Type 0
  WithEffects = ConnectionState net × List (ConnectionEffect net)

  unfoldable pub track_gossip_peer : ConnectionState net → PeerId → Option String → WithEffects
  track_gossip_peer s peer_id text =
      let (peers, added) = HashSet.insert s.gossip_peers peer_id in
      if not added then (s, []) else (
        record s { gossip_peers = peers },
        track_gossip peer_id ∷ (elim text [ none ↦ [] | some t ↦ status t ∷ [] ]),
      )

  unfoldable pub untrack_gossip_peer : ConnectionState net → PeerId → WithEffects
  unfolding HashSet.remove
  untrack_gossip_peer s peer_id =
      let (peers, removed) = HashSet.remove s.gossip_peers peer_id in
      (record s { gossip_peers = peers }, if removed then untrack_gossip peer_id ∷ [] else [])

  unfoldable pub start_gossip_warmup : ConnectionState net → PeerId → Instant → WithEffects
  start_gossip_warmup s peer_id now =
      if HashSet.contains s.warmup_completed peer_id
      then (s, [])
      else if HashMap.contains_key s.warmups peer_id
      then (s, [])
      else (
        record s { warmups = HashMap.insert s.warmups peer_id (record { started_at = now }) },
        status (
              concat (
                "waiting up to "
                ∷ format_retry_duration gossip_warmup_timeout
                ∷ " for "
                ∷ peer_id
                ∷ " to subscribe to chat before direct promotion"
                ∷ []))
            ∷ [],
      )

  -- The last part: whether the promotion is allowed.
  unfoldable pub gossip_warmup_allows_promotion :
      ConnectionState net
      → PeerId
      → Instant
      → ConnectionState net × List (ConnectionEffect net) × Bool
  unfolding start_gossip_warmup is_chat_subscribed is_expired
  gossip_warmup_allows_promotion s peer_id now =
      if is_chat_subscribed net s peer_id
      then (
        record s {
          warmups = HashMap.remove s.warmups peer_id;
          warmup_completed = HashSet.delete s.warmup_completed peer_id;
        },
        [],
        true,
      )
      else if HashSet.contains s.warmup_completed peer_id
      then (s, [], true)
      else elim (HashMap.get s.warmups peer_id) [
        | none ↦ let (s', effects) = start_gossip_warmup s peer_id now in (s', effects, false)
        | some warmup ↦ if not (is_expired warmup now) then (s, [], false) else (
          record s {
            warmups = HashMap.remove s.warmups peer_id;
            warmup_completed = (HashSet.insert s.warmup_completed peer_id).0;
          },
          status (
                concat (
                  "gossipsub warmup timed out for " ∷ peer_id ∷ "; trying direct promotion anyway"
                  ∷ []))
              ∷ [],
          true,
        )
      ]

  abbrev pub backoff_of : ConnectionState net → PeerId → DirectPromotionBackoff
  backoff_of s peer_id = elim (HashMap.get s.backoffs peer_id) [ none ↦ default | some b ↦ b ]

  abbrev pub set_backoff :
      ConnectionState net → PeerId → DirectPromotionBackoff → ConnectionState net
  set_backoff s peer_id b = record s { backoffs = HashMap.insert s.backoffs peer_id b }

  -- The attempt itself, where the warmup allows it.
  unfoldable pub attempt_promotion :
      ConnectionState net → PeerId → List Multiaddr → Instant → WithEffects
  unfolding default
  attempt_promotion s peer_id addresses now =
      let b = backoff_of s peer_id in
      if leb direct_promotion_max_failures b.failures
      then if b.suspended_reported then (set_backoff s peer_id b, []) else (
        set_backoff s peer_id (record b { suspended_reported = true }),
        status (
              concat (
                "direct promotion suspended for "
                ∷ peer_id
                ∷ " after "
                ∷ display b.failures
                ∷ " failures; waiting for new direct addresses"
                ∷ []))
            ∷ [],
      )
      else if not (should_attempt b now)
      then (set_backoff s peer_id b, [])
      else (
        set_backoff s peer_id (mark_attempt b now),
        dial_direct peer_id (prioritize_multiaddrs net addresses)
            ∷ status (
                concat (
                  "trying direct connection to "
                  ∷ peer_id
                  ∷ " ("
                  ∷ display (length (prioritize_multiaddrs net addresses))
                  ∷ " candidate address(es))"
                  ∷ []))
            ∷ [],
      )

  unfoldable pub maybe_promote_relayed_peer : ConnectionState net → PeerId → Instant → WithEffects
  maybe_promote_relayed_peer s peer_id now =
      if (peer_id == s.local_peer_id) || not (is_relay_only net s peer_id)
      then (s, [])
      else elim (HashMap.get s.direct_addresses peer_id) [
        | none ↦ (s, [])
        | some addresses ↦
            if HashSet.is_empty addresses
            then (s, [])
            else (let (s', warmed, allowed) = gossip_warmup_allows_promotion s peer_id now in
                if not allowed
                then (s', warmed)
                else (let (s'', tried) = attempt_promotion s' peer_id addresses now in
                    (s'', warmed ++ tried)))
      ]

  unfoldable pub reset_backoff : ConnectionState net → PeerId → WithEffects
  reset_backoff s peer_id =
      if is_some (HashMap.get s.backoffs peer_id)
      then (
        record s { backoffs = HashMap.remove s.backoffs peer_id },
        reset_backoff_of peer_id ∷ [],
      )
      else (s, [])

  unfoldable pub schedule_relay_handoff : ConnectionState net → PeerId → Instant → WithEffects
  schedule_relay_handoff s peer_id now =
      if not (has_direct net s peer_id) || not (has_relayed net s peer_id)
      then (record s { relay_handoffs = HashMap.remove s.relay_handoffs peer_id }, [])
      else (
        record s {
          relay_handoffs =
              HashMap.insert s.relay_handoffs peer_id (now + direct_relay_handoff_grace);
        },
        if is_some (HashMap.get s.relay_handoffs peer_id)
            then []
            else status (
                concat (
                  "direct connection ready with "
                  ∷ peer_id
                  ∷ "; keeping relay for "
                  ∷ format_retry_duration direct_relay_handoff_grace
                  ∷ " handoff"
                  ∷ []))
              ∷ [],
      )

  unfoldable pub close_relay_after_handoff : ConnectionState net → PeerId → WithEffects
  close_relay_after_handoff s peer_id =
      let s' = record s { relay_handoffs = HashMap.remove s.relay_handoffs peer_id } in
      if not (has_direct net s peer_id) || not (has_relayed net s peer_id)
      then (s', [])
      else if not (is_chat_subscribed net s peer_id)
      then (s', [])
      else (let connections = relay_connections net s peer_id in
          (
            s',
            if HashSet.is_empty connections
                then []
                else close_relay_connections peer_id connections handoff_settled ∷ [],
          ))

  unfoldable pub record_direct_promotion_failure :
      ConnectionState net → PeerId → String → Instant → WithEffects
  unfolding default
  record_direct_promotion_failure s peer_id reason now =
      let (b, outcome) = mark_failure (backoff_of s peer_id) now in
      elim outcome [
        | duplicate ↦ (set_backoff s peer_id b, [])
        | counted failures retry_after ↦ elim retry_after [
          | some wait ↦ (
            set_backoff s peer_id b,
            status (
                  concat (
                    "direct promotion failed for "
                    ∷ peer_id
                    ∷ " ("
                    ∷ display failures
                    ∷ "/"
                    ∷ display direct_promotion_max_failures
                    ∷ "): "
                    ∷ reason
                    ∷ "; retrying in "
                    ∷ format_retry_duration wait
                    ∷ []))
                ∷ [],
          )
          | none ↦ (
            set_backoff s peer_id (record b { suspended_reported = true }),
            status (
                  concat (
                    "direct promotion suspended for "
                    ∷ peer_id
                    ∷ " after "
                    ∷ display failures
                    ∷ " failures: "
                    ∷ reason
                    ∷ "; waiting for new direct addresses"
                    ∷ []))
                ∷ [],
          )
        ]
      ]

  -- The addresses that normalise, in order.
  abbrev pub normalized : PeerId → List Multiaddr → List Multiaddr
  normalized peer_id [] = []
  normalized peer_id (a ∷ as') =
      let rest = normalized peer_id as' in
      elim (normalize_direct_peer_address net peer_id a) [ none ↦ rest | some b ↦ b ∷ rest ]

  -- Insert all, and count those that were new.
  abbrev pub insert_all : HashSet Multiaddr → List Multiaddr → HashSet Multiaddr × ℕ
  insert_all known [] = (known, 0)
  insert_all known (a ∷ as') =
      let (known', added) = HashSet.insert ⦃e = multiaddr_eq⦄ known a in
      let (known'', n) = insert_all known' as' in (known'', if added then suc n else n)

  unfoldable pub remember_direct_addresses :
      ConnectionState net → PeerId → List Multiaddr → ConnectionState net × ℕ
  remember_direct_addresses s peer_id addresses = elim (normalized peer_id addresses) [
    | [] ↦ (s, 0)
    | a ∷ as' ↦
        let known : HashSet Multiaddr = elim (HashMap.get s.direct_addresses peer_id) [
          | none ↦ HashSet.new
          | some k ↦ k
        ] in
        let (known', added) = insert_all known (a ∷ as') in
        (record s { direct_addresses = HashMap.insert s.direct_addresses peer_id known' }, added)
  ]
