-- ===== src/Connection/Events/Runs.antt =====
-- src/connection_state.rs: the events in any order.
use link_ear.Prelude.{ℕ, String, Bool, List, [], ◌∷◌, arith, string_eq, nat_eq, bool_eq, option_eq}
use link_ear.Prelude.Words.{Instant}
use link_ear.Prelude.Text.{concat}
use link_ear.Prelude.HashMap
use link_ear.Prelude.HashMap.{get-remove, get-remove_self, get-insert}
use link_ear.Core.Types.{PeerId}
use link_ear.Connection.Net.{Net}
use link_ear.Connection.State.{ConnectionState, new}
use link_ear.Connection.Promotion.{
  WithEffects, maybe_promote_relayed_peer, reset_backoff, close_relay_after_handoff,
}
use link_ear.Connection.Events.{
  connection_established, connection_closed, learn_direct_addresses, forget_direct_address,
  chat_subscribed, chat_unsubscribed, for_each, expired_warmups, due_handoffs, promotion_tick,
  warmup_tick, dcutr_succeeded, dcutr_failed, outgoing_connection_error,
}
use link_ear.Connection.Events.Routes.{reset-Frame}
use link_ear.Connection.Events.Handoff.{
  HandoffsReady, closed-Ready, learn-Ready, forget-Ready, subscribed-Ready, unsubscribed-Ready,
  for_each-Ready, promote-Ready, failure-Ready, close-Ready, framed,
}
use link_ear.Connection.Events.Settled.{established-Ready}

module _ (net : Net) where
  open net use {ConnectionId, Multiaddr}

  -- What the network task tells the state.
  pub data Event : Type 0 where
    established :
        (p : PeerId) (id : ConnectionId) (is_relayed is_rendezvous_node : Bool) (now : Instant)
        → Event
    closed : (p : PeerId) (id : ConnectionId) (was_relayed : Bool) (remaining : ℕ) → Event
    learned : (p : PeerId) (addresses : List Multiaddr) (now : Instant) → Event
    forgot : (p : PeerId) (address : Multiaddr) → Event
    subscribed : (p : PeerId) (now : Instant) → Event
    unsubscribed : (p : PeerId) → Event
    promotion_ticked warmup_ticked : (now : Instant) → Event
    upgraded : (p : PeerId) → Event
    upgrade_failed dial_failed : (p : PeerId) (reason : String) (now : Instant) → Event

  abbrev pub handle : ConnectionState net → Event → WithEffects net
  handle s (established p id is_relayed is_rendezvous_node now) =
      connection_established net s p id is_relayed is_rendezvous_node now
  handle s (closed p id was_relayed remaining) = connection_closed net s p id was_relayed remaining
  handle s (learned p addresses now) = learn_direct_addresses net s p addresses now
  handle s (forgot p address) = ((forget_direct_address net s p address).0, [])
  handle s (subscribed p now) = chat_subscribed net s p now
  handle s (unsubscribed p) = chat_unsubscribed net s p
  handle s (promotion_ticked now) = promotion_tick net s now
  handle s (warmup_ticked now) = warmup_tick net s now
  handle s (upgraded p) = dcutr_succeeded net s p
  handle s (upgrade_failed p reason now) = dcutr_failed net s p reason now
  handle s (dial_failed p reason now) = outgoing_connection_error net s p reason now

  abbrev pub handle_all : ConnectionState net → List Event → ConnectionState net
  handle_all s [] = s
  handle_all s (e ∷ es) = handle_all (handle s e).0 es

  warmup_tick-Ready :
      (s : ConnectionState net) (now : Instant)
      → HandoffsReady net s
      → HandoffsReady net (warmup_tick net s now).0
  unfolding warmup_tick
  warmup_tick-Ready s now r =
      let s' =
        (for_each net (λ t p. maybe_promote_relayed_peer net t p now) s
          (expired_warmups net s.warmups now)).0 in
      for_each-Ready net (close_relay_after_handoff net) (close-Ready net) s'
        (due_handoffs net s.relay_handoffs now)
        (for_each-Ready net (λ t p. maybe_promote_relayed_peer net t p now) (promote-Ready net now)
          s (expired_warmups net s.warmups now) r)

  dcutr_failed-Ready :
      (s : ConnectionState net) (p : PeerId) (reason : String) (now : Instant)
      → HandoffsReady net s
      → HandoffsReady net (dcutr_failed net s p reason now).0
  unfolding dcutr_failed
  dcutr_failed-Ready s p reason now r q h =
      ground (arith, r q, failure-Ready net s p (concat ("DCUtR failed: " ∷ reason ∷ [])) now r q)

  dial_failed-Ready :
      (s : ConnectionState net) (p : PeerId) (reason : String) (now : Instant)
      → HandoffsReady net s
      → HandoffsReady net (outgoing_connection_error net s p reason now).0
  unfolding outgoing_connection_error
  dial_failed-Ready s p reason now r q h = ground (arith, r q, failure-Ready net s p reason now r q)

  handle-Ready :
      (s : ConnectionState net) (e : Event) → HandoffsReady net s → HandoffsReady net (handle s e).0
  unfolding promotion_tick dcutr_succeeded
  handle-Ready s (established p id is_relayed rendezvous now) r =
      established-Ready net s p id is_relayed rendezvous now r
  handle-Ready s (closed p id was_relayed n) r = closed-Ready net s p id was_relayed n r
  handle-Ready s (learned p as' now) r = learn-Ready net s p as' now r
  handle-Ready s (forgot p a) r = forget-Ready net s p a r
  handle-Ready s (subscribed p now) r = subscribed-Ready net s p now r
  handle-Ready s (unsubscribed p) r = unsubscribed-Ready net s p r
  handle-Ready s (promotion_ticked now) r =
      for_each-Ready net (λ t p. maybe_promote_relayed_peer net t p now) (promote-Ready net now) s
        (HashMap.keys s.routes) r
  handle-Ready s (warmup_ticked now) r = warmup_tick-Ready s now r
  handle-Ready s (upgraded p) r = framed net s (reset_backoff net s p).0 (reset-Frame net s p) r
  handle-Ready s (upgrade_failed p reason now) r = dcutr_failed-Ready s p reason now r
  handle-Ready s (dial_failed p reason now) r = dial_failed-Ready s p reason now r

  keep :
      (s : ConnectionState net) (es : List Event)
      → HandoffsReady net s
      → HandoffsReady net (handle_all s es)
  keep s [] r = r
  keep s (e ∷ es) r = keep (handle s e).0 es (handle-Ready s e r)

  -- From a new state, whatever happens, a handoff from relay to direct is planned only for a peer that has both a
  -- direct and a relayed connection and subscribes to the chat.
  pub handle_all-HandoffsReady :
      (local : PeerId) (es : List Event) → HandoffsReady net (handle_all (new net local) es)
  unfolding new HashMap.get
  handle_all-HandoffsReady local es = keep (new net local) es (λ p h. ground arith)
