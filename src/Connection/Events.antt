-- ===== src/Connection/Events.antt =====
-- src/connection_state.rs: the events of the connections. Each returns the new state and the effects
-- that the network task carries out.
pub mod Handoff
pub mod Routes
pub mod Settled
pub mod Runs
pub mod Dial
use link_ear.Prelude.{
  ℕ, String, Bool, false, not, ◌&&◌, ◌||◌, none, some, List, [], ◌∷◌, ◌++◌, ltb, leb, if◌then◌else◌,
  is_some_and, ◌==◌, string_eq, nat_eq, bool_eq, option_eq,
}
use link_ear.Prelude.Words.{Instant}
use link_ear.Prelude.Text.{display, concat}
use link_ear.Prelude.HashSet
use link_ear.Prelude.HashSet.{HashSet}
use link_ear.Prelude.HashMap
use link_ear.Core.Types.{PeerId}
use link_ear.Connection.Net.{Net, normalize_direct_peer_address}
use link_ear.Connection.State.{
  ConnectionState, PeerConnectionRoutes, GossipsubWarmup, status, close_early_direct, is_expired,
  no_routes, add_route, remove_route, routes_empty, is_chat_subscribed, is_relay_only, has_direct,
  has_relayed,
}
use link_ear.Connection.Promotion.{
  WithEffects, track_gossip_peer, untrack_gossip_peer, start_gossip_warmup,
  gossip_warmup_allows_promotion, maybe_promote_relayed_peer, reset_backoff, schedule_relay_handoff,
  close_relay_after_handoff, record_direct_promotion_failure, remember_direct_addresses,
}

module _ (net : Net) where
  open net use {ConnectionId, Multiaddr, multiaddr_eq}

  -- One step after another, with the effects of both.
  infixl 6 ◌then_do◌
  abbrev pub ◌then_do◌ : WithEffects net → (ConnectionState net → WithEffects net) → WithEffects net
  (s, effects) then_do f = let (s', more) = f s in (s', effects ++ more)

  abbrev pub say : ConnectionState net → List String → WithEffects net
  say s text = (s, status (concat text) ∷ [])

  unfoldable pub established_routes :
      ConnectionState net → PeerId → ConnectionId → Bool → ConnectionState net
  unfolding no_routes
  established_routes s peer_id connection_id is_relayed =
      let known : PeerConnectionRoutes net = elim (HashMap.get s.routes peer_id) [
        | none ↦ no_routes net
        | some r ↦ r
      ] in
      record s {
        routes = HashMap.insert s.routes peer_id (add_route net known connection_id is_relayed);
      }

  -- The end of connection_established for a direct connection whose promotion is allowed.
  unfoldable pub promoted : ConnectionState net → PeerId → Bool → Instant → WithEffects net
  promoted s peer_id has_relayed_route now = reset_backoff net s peer_id then_do λ s'.
      if is_chat_subscribed net s' peer_id
      then if has_relayed net s' peer_id
        then schedule_relay_handoff net s' peer_id now
        else say s' ("connected " ∷ peer_id ∷ " directly" ∷ [])
      else if has_relayed_route
      then say s' (
          "promoted " ∷ peer_id
          ∷ " to direct connection after gossip warmup timeout; keeping relay until chat subscription is ready"
          ∷ [])
      else say s' ("connected " ∷ peer_id ∷ " directly" ∷ [])

  unfoldable pub established_relayed :
      ConnectionState net → PeerId → Bool → Instant → WithEffects net
  established_relayed s peer_id is_rendezvous_node now =
      (say s ("connected " ∷ peer_id ∷ " via relay" ∷ []) then_do λ s'.
      if not is_rendezvous_node && not (is_chat_subscribed net s' peer_id)
      then start_gossip_warmup net s' peer_id now
      else (s', []))
      then_do λ s'. maybe_promote_relayed_peer net s' peer_id now

  unfoldable pub established_direct :
      ConnectionState net → PeerId → ConnectionId → Instant → WithEffects net
  established_direct s peer_id connection_id now =
      let has_relayed_route = has_relayed net s peer_id in
      if not has_relayed_route || is_chat_subscribed net s peer_id
      then promoted s peer_id has_relayed_route now
      else (let (s', warmed, allowed) = gossip_warmup_allows_promotion net s peer_id now in
          (s', warmed) then_do λ s''.
          if allowed
          then promoted s'' peer_id has_relayed_route now
          else (s'', close_early_direct peer_id connection_id ∷ []))

  unfoldable pub connection_established :
      ConnectionState net → PeerId → ConnectionId → Bool → Bool → Instant → WithEffects net
  connection_established s peer_id connection_id is_relayed is_rendezvous_node now =
      let s' = established_routes s peer_id connection_id is_relayed in
      (if is_rendezvous_node
        then (s', [])
        else track_gossip_peer net s' peer_id
            (some (concat ("tracking " ∷ peer_id ∷ " as gossip peer" ∷ []))))
      then_do λ s''.
          if is_relayed
          then established_relayed s'' peer_id is_rendezvous_node now
          else established_direct s'' peer_id connection_id now

  unfoldable pub closed_routes :
      ConnectionState net → PeerId → ConnectionId → Bool → ConnectionState net
  closed_routes s peer_id connection_id was_relayed = elim (HashMap.get s.routes peer_id) [
    | none ↦ s
    | some r ↦
        let r' = remove_route net r connection_id was_relayed in
        record s {
          routes =
              if routes_empty net r'
              then HashMap.remove (HashMap.insert s.routes peer_id r') peer_id
              else HashMap.insert s.routes peer_id r';
        }
  ]

  abbrev forget_handoff : ConnectionState net → PeerId → ConnectionState net
  forget_handoff s peer_id = record s { relay_handoffs = HashMap.remove s.relay_handoffs peer_id }

  unfoldable pub connection_closed :
      ConnectionState net → PeerId → ConnectionId → Bool → ℕ → WithEffects net
  connection_closed s peer_id connection_id was_relayed remaining_established =
      let s1 = closed_routes s peer_id connection_id was_relayed in
      let s2 =
        if not (has_direct net s1 peer_id) || not (has_relayed net s1 peer_id)
        then forget_handoff s1 peer_id
        else s1 in
      if ltb 0 remaining_established
      then say s2 (
          (if was_relayed then "relay" else "direct")
          ∷ " connection closed "
          ∷ peer_id
          ∷ "; "
          ∷ display remaining_established
          ∷ " link(s) remain"
          ∷ [])
      else say
          (record s2 {
            backoffs = HashMap.remove s2.backoffs peer_id;
            chat_subscribers = HashSet.delete s2.chat_subscribers peer_id;
            direct_addresses = HashMap.remove s2.direct_addresses peer_id;
            warmups = HashMap.remove s2.warmups peer_id;
            warmup_completed = HashSet.delete s2.warmup_completed peer_id;
            relay_handoffs = HashMap.remove s2.relay_handoffs peer_id;
          })
          ("disconnected " ∷ peer_id ∷ [])
        then_do λ s'. untrack_gossip_peer net s' peer_id

  unfoldable pub learn_direct_addresses :
      ConnectionState net → PeerId → List Multiaddr → Instant → WithEffects net
  learn_direct_addresses s peer_id addresses now =
      let (s', added) = remember_direct_addresses net s peer_id addresses in
      if added == 0
      then (s', [])
      else reset_backoff net s' peer_id then_do λ s''.
          maybe_promote_relayed_peer net s'' peer_id now

  unfoldable pub forget_direct_address :
      ConnectionState net → PeerId → Multiaddr → ConnectionState net × Bool
  unfolding HashSet.remove
  forget_direct_address s peer_id address =
      elim (normalize_direct_peer_address net peer_id address) [
        | none ↦ (s, false)
        | some a ↦ elim (HashMap.get s.direct_addresses peer_id) [
          | none ↦ (s, false)
          | some known ↦
              let (known', removed) = HashSet.remove ⦃e = multiaddr_eq⦄ known a in
              (
                record s {
                  direct_addresses =
                      if HashSet.is_empty known'
                      then HashMap.remove s.direct_addresses peer_id
                      else HashMap.insert s.direct_addresses peer_id known';
                },
                removed,
              )
        ]
      ]

  abbrev pub newly_subscribed : ConnectionState net → PeerId → ConnectionState net
  newly_subscribed s peer_id = record s {
    chat_subscribers = (HashSet.insert s.chat_subscribers peer_id).0;
    warmups = HashMap.remove s.warmups peer_id;
    warmup_completed = HashSet.delete s.warmup_completed peer_id;
  }

  unfoldable pub chat_subscribed : ConnectionState net → PeerId → Instant → WithEffects net
  chat_subscribed s peer_id now =
      (say (newly_subscribed s peer_id) ("peer " ∷ peer_id ∷ " subscribed to chat" ∷ [])
        then_do λ s'. maybe_promote_relayed_peer net s' peer_id now)
      then_do λ s'.
          if has_direct net s' peer_id then schedule_relay_handoff net s' peer_id now else (s', [])

  unfoldable pub chat_unsubscribed : ConnectionState net → PeerId → WithEffects net
  chat_unsubscribed s peer_id =
      let s' = record s { chat_subscribers = HashSet.delete s.chat_subscribers peer_id } in
      if HashMap.contains_key s'.routes peer_id
      then say (forget_handoff s' peer_id) (
          "peer " ∷ peer_id
          ∷ " unsubscribed from chat while still connected; room messages require gossipsub readiness"
          ∷ [])
      else say s' ("peer " ∷ peer_id ∷ " unsubscribed from chat" ∷ [])

  -- A step for each of the peers.
  abbrev pub for_each :
      (ConnectionState net → PeerId → WithEffects net)
      → ConnectionState net
      → List PeerId
      → WithEffects net
  for_each f s [] = (s, [])
  for_each f s (peer_id ∷ peers) =
      let (s', effects) = f s peer_id in
      let (s'', more) = for_each f s' peers in (s'', effects ++ more)

  unfoldable pub promotion_tick : ConnectionState net → Instant → WithEffects net
  promotion_tick s now =
      for_each (λ t peer_id. maybe_promote_relayed_peer net t peer_id now) s (HashMap.keys s.routes)

  abbrev pub expired_warmups : List (PeerId × GossipsubWarmup) → Instant → List PeerId
  expired_warmups [] now = []
  expired_warmups ((peer_id, w) ∷ ws) now =
      let rest = expired_warmups ws now in if is_expired w now then peer_id ∷ rest else rest

  abbrev pub due_handoffs : List (PeerId × Instant) → Instant → List PeerId
  due_handoffs [] now = []
  due_handoffs ((peer_id, deadline) ∷ hs) now =
      let rest = due_handoffs hs now in if leb deadline now then peer_id ∷ rest else rest

  unfoldable pub warmup_tick : ConnectionState net → Instant → WithEffects net
  warmup_tick s now =
      for_each (λ t peer_id. maybe_promote_relayed_peer net t peer_id now) s
        (expired_warmups s.warmups now)
      then_do λ s'.
          for_each (λ t peer_id. close_relay_after_handoff net t peer_id) s'
            (due_handoffs s.relay_handoffs now)

  unfoldable pub dcutr_succeeded : ConnectionState net → PeerId → WithEffects net
  dcutr_succeeded s peer_id = reset_backoff net s peer_id

  unfoldable pub dcutr_failed : ConnectionState net → PeerId → String → Instant → WithEffects net
  dcutr_failed s peer_id reason now =
      if is_relay_only net s peer_id
      then record_direct_promotion_failure net s peer_id (concat ("DCUtR failed: " ∷ reason ∷ []))
          now
      else say s ("direct upgrade failed with " ∷ peer_id ∷ ": " ∷ reason ∷ [])

  unfoldable pub outgoing_connection_error :
      ConnectionState net → PeerId → String → Instant → WithEffects net
  outgoing_connection_error s peer_id reason now =
      if is_some_and (HashMap.get s.backoffs peer_id) (λ b. b.in_flight)
      then record_direct_promotion_failure net s peer_id reason now
      else say s ("outgoing connection error " ∷ peer_id ∷ ": " ∷ reason ∷ [])
