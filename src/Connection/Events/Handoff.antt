-- ===== src/Connection/Events/Handoff.antt =====
-- src/connection_state.rs: the handoffs from a relayed to a direct connection.
use link_ear.Prelude.{
  ℕ, ◌+◌, String, ◌≡◌, inl, inr, Bool, true, false, List, [], ◌∷◌, arith, Option-cases, is_some,
  ◌==◌, string_eq, nat_eq, bool_eq, option_eq, beq_refl,
}
use link_ear.Prelude.Words.{Instant}
use link_ear.Prelude.HashSet
use link_ear.Prelude.HashSet.{HashSet, contains, contains-delete, contains-insert}
use link_ear.Prelude.HashMap
use link_ear.Prelude.HashMap.{get-remove, get-remove_self, get-insert}
use link_ear.Core.Types.{PeerId}
use link_ear.Connection.Net.{Net}
use link_ear.Connection.State.{
  ConnectionState, PeerConnectionRoutes, has_direct, has_relayed, is_chat_subscribed, no_routes,
  add_route, remove_route,
}
use link_ear.Connection.Promotion.{
  WithEffects, untrack_gossip_peer, maybe_promote_relayed_peer, reset_backoff,
  schedule_relay_handoff, close_relay_after_handoff, record_direct_promotion_failure,
  remember_direct_addresses,
}
use link_ear.Connection.Events.{
  established_routes, closed_routes, connection_closed, learn_direct_addresses,
  forget_direct_address, newly_subscribed, chat_subscribed, chat_unsubscribed, for_each,
}
use link_ear.Connection.Events.Routes.{
  Frame, promote-Frame, reset-Frame, failure-Frame, remember-Frame,
}

module _ (net : Net) where
  open net use {ConnectionId, Multiaddr}

  -- A handoff is planned only for a peer that has a direct and a relayed connection and subscribes to the chat.
  abbrev pub HandoffsReady : ConnectionState net → Type 0
  HandoffsReady s =
      (p : PeerId)
      → is_some (HashMap.get s.relay_handoffs p) ≡ true
      → (has_direct net s p ≡ true)
        × (has_relayed net s p ≡ true)
        × (is_chat_subscribed net s p ≡ true)

  pub framed : (s s' : ConnectionState net) → Frame net s s' → HandoffsReady s → HandoffsReady s'
  unfolding has_direct has_relayed is_chat_subscribed
  framed s s' f r p h = ground (arith, r p)

  pub schedule-Ready :
      (s : ConnectionState net) (p : PeerId) (now : Instant)
      → is_chat_subscribed net s p ≡ true
      → HandoffsReady s
      → HandoffsReady (schedule_relay_handoff net s p now).0
  unfolding has_direct has_relayed is_chat_subscribed schedule_relay_handoff
  schedule-Ready s p now sub r q h = ground (
    arith,
    r q,
    get-insert s.relay_handoffs p q (now + 10000000000),
    get-remove s.relay_handoffs p q,
    string_eq.beq_iff p q,
  )

  pub close-Ready :
      (s : ConnectionState net) (p : PeerId)
      → HandoffsReady s
      → HandoffsReady (close_relay_after_handoff net s p).0
  unfolding close_relay_after_handoff has_direct has_relayed is_chat_subscribed
  close-Ready s p r q h = ground (arith, r q, get-remove s.relay_handoffs p q)

  add_route-grows :
      (r : PeerConnectionRoutes net) (id : ConnectionId) (is_relayed : Bool)
      → (HashSet.is_empty r.direct ≡ false
          → HashSet.is_empty (add_route net r id is_relayed).direct ≡ false)
        × (HashSet.is_empty r.relayed ≡ false
            → HashSet.is_empty (add_route net r id is_relayed).relayed ≡ false)
  unfolding add_route HashSet.insert
  add_route-grows r id is_relayed = ground arith

  pub established_routes-Ready :
      (s : ConnectionState net) (p : PeerId) (id : ConnectionId) (is_relayed : Bool)
      → HandoffsReady s
      → HandoffsReady (established_routes net s p id is_relayed)
  unfolding established_routes has_direct has_relayed is_chat_subscribed
  established_routes-Ready s p id is_relayed r q h = elim (Option-cases (HashMap.get s.routes p)) [
    | inl e ↦ ground (
      arith,
      r q h,
      get-insert s.routes p q (add_route net (no_routes net) id is_relayed),
      string_eq.beq_iff p q,
    )
    | inr (known, e) ↦ ground (
      arith,
      r q h,
      get-insert s.routes p q (add_route net known id is_relayed),
      string_eq.beq_iff p q,
      add_route-grows known id is_relayed,
    )
  ]

  -- Closing a connection leaves the other peers and the rest of the state alone.
  closed_routes_elsewhere :
      (s : ConnectionState net) (p : PeerId) (id : ConnectionId) (was_relayed : Bool) (q : PeerId)
      → let s' = closed_routes net s p id was_relayed in
        (((p == q) ≡ false) → HashMap.get s'.routes q ≡ HashMap.get s.routes q)
        × (s'.relay_handoffs ≡ s.relay_handoffs)
        × (s'.chat_subscribers ≡ s.chat_subscribers)
  unfolding closed_routes
  closed_routes_elsewhere s p id was_relayed q = elim (Option-cases (HashMap.get s.routes p)) [
    | inl e ↦ ground arith
    | inr (known, e) ↦ ground (
      arith,
      get-insert s.routes p q (remove_route net known id was_relayed),
      get-remove (HashMap.insert s.routes p (remove_route net known id was_relayed)) p q,
    )
  ]

  pub closed-Ready :
      (s : ConnectionState net) (p : PeerId) (id : ConnectionId) (was_relayed : Bool) (n : ℕ)
      → HandoffsReady s
      → HandoffsReady (connection_closed net s p id was_relayed n).0
  unfolding connection_closed has_direct has_relayed is_chat_subscribed untrack_gossip_peer
  closed-Ready s p id was_relayed n r q h = ground (
    arith,
    r q,
    closed_routes_elsewhere s p id was_relayed q,
    get-remove s.relay_handoffs p q,
    get-remove (HashMap.remove s.relay_handoffs p) p q,
    contains-delete s.chat_subscribers p q,
    string_eq.beq_iff p q,
  )

  newly_subscribed-Ready :
      (s : ConnectionState net) (p : PeerId)
      → HandoffsReady s
      → HandoffsReady (newly_subscribed net s p)
  unfolding has_direct has_relayed is_chat_subscribed
  newly_subscribed-Ready s p r q h = ground (arith, r q h, contains-insert s.chat_subscribers p q)

  Frame-subscribed :
      (s s' : ConnectionState net) (p : PeerId)
      → Frame net s s'
      → is_chat_subscribed net s p ≡ true
      → is_chat_subscribed net s' p ≡ true
  unfolding is_chat_subscribed
  Frame-subscribed s s' p f h = ground arith

  now_subscribed :
      (s : ConnectionState net) (p : PeerId)
      → is_chat_subscribed net (newly_subscribed net s p) p ≡ true
  unfolding is_chat_subscribed
  now_subscribed s p = ground (arith, contains-insert s.chat_subscribers p p, beq_refl p)

  pub subscribed-Ready :
      (s : ConnectionState net) (p : PeerId) (now : Instant)
      → HandoffsReady s
      → HandoffsReady (chat_subscribed net s p now).0
  unfolding chat_subscribed
  subscribed-Ready s p now r q h =
      let s1 = newly_subscribed net s p in
      let s2 = (maybe_promote_relayed_peer net s1 p now).0 in
      let r2 = framed s1 s2 (promote-Frame net s1 p now) (newly_subscribed-Ready s p r) in
      let sub = Frame-subscribed s1 s2 p (promote-Frame net s1 p now) (now_subscribed s p) in
      ground (arith, r2 q, schedule-Ready s2 p now sub r2 q)

  pub unsubscribed-Ready :
      (s : ConnectionState net) (p : PeerId)
      → HandoffsReady s
      → HandoffsReady (chat_unsubscribed net s p).0
  unfolding chat_unsubscribed has_direct has_relayed is_chat_subscribed
  unsubscribed-Ready s p r q h = ground (
    arith,
    r q,
    get-remove s.relay_handoffs p q,
    contains-delete s.chat_subscribers p q,
    string_eq.beq_iff p q,
  )

  pub for_each-Ready :
      (f : ConnectionState net → PeerId → WithEffects net)
      → ((s : ConnectionState net) (p : PeerId) → HandoffsReady s → HandoffsReady (f s p).0)
      → (s : ConnectionState net) (ps : List PeerId) → HandoffsReady s
      → HandoffsReady (for_each net f s ps).0
  for_each-Ready f keep s [] r = r
  for_each-Ready f keep s (p ∷ ps) r = for_each-Ready f keep (f s p).0 ps (keep s p r)

  pub promote-Ready :
      (now : Instant) (s : ConnectionState net) (p : PeerId)
      → HandoffsReady s
      → HandoffsReady (maybe_promote_relayed_peer net s p now).0
  promote-Ready now s p r =
      framed s (maybe_promote_relayed_peer net s p now).0 (promote-Frame net s p now) r

  pub failure-Ready :
      (s : ConnectionState net) (p : PeerId) (reason : String) (now : Instant)
      → HandoffsReady s
      → HandoffsReady (record_direct_promotion_failure net s p reason now).0
  failure-Ready s p reason now r =
      framed s (record_direct_promotion_failure net s p reason now).0
        (failure-Frame net s p reason now) r

  pub learn-Ready :
      (s : ConnectionState net) (p : PeerId) (as' : List Multiaddr) (now : Instant)
      → HandoffsReady s
      → HandoffsReady (learn_direct_addresses net s p as' now).0
  unfolding learn_direct_addresses
  learn-Ready s p as' now r q h =
      let s1 = (remember_direct_addresses net s p as').0 in
      let r1 = framed s s1 (remember-Frame net s p as') r in
      let s2 = (reset_backoff net s1 p).0 in
      let r2 = framed s1 s2 (reset-Frame net s1 p) r1 in
      ground (arith, r1 q, promote-Ready now s2 p r2 q)

  pub forget-Ready :
      (s : ConnectionState net) (p : PeerId) (a : Multiaddr)
      → HandoffsReady s
      → HandoffsReady (forget_direct_address net s p a).0
  unfolding forget_direct_address has_direct has_relayed is_chat_subscribed
  forget-Ready s p a r q h = ground (arith, r q)
