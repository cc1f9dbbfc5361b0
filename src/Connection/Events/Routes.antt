-- ===== src/Connection/Events/Routes.antt =====
-- src/connection_state.rs: which parts of the state the shared steps leave alone.
use link_ear.Prelude.{
  String, ◌≡◌, inl, inr, Bool, false, Option, none, List, arith, Option-cases, string_eq, nat_eq,
  bool_eq, option_eq, beq_refl,
}
use link_ear.Prelude.Words.{Instant}
use link_ear.Prelude.HashSet.{HashSet, contains, delete, remove, contains-delete}
use link_ear.Prelude.HashMap
use link_ear.Prelude.HashMap.{get-remove, get-remove_self, get-insert}
use link_ear.Core.Types.{PeerId}
use link_ear.Connection.Net.{Net}
use link_ear.Connection.State.{ConnectionState}
use link_ear.Connection.Promotion.{
  track_gossip_peer, untrack_gossip_peer, start_gossip_warmup, gossip_warmup_allows_promotion,
  attempt_promotion, maybe_promote_relayed_peer, reset_backoff, record_direct_promotion_failure,
  remember_direct_addresses,
}
use link_ear.Connection.Events.{connection_closed}

gone : (s : HashSet PeerId) (p : PeerId) → contains (delete s p) p ≡ false
gone s p = ground (arith, contains-delete s p p, beq_refl p)

module _ (net : Net) where
  open net use {ConnectionId, Multiaddr}

  -- The connections, the handoffs and the subscribers are as before.
  abbrev pub Frame : ConnectionState net → ConnectionState net → Type 0
  Frame s s' =
      (s'.routes ≡ s.routes)
      × (s'.relay_handoffs ≡ s.relay_handoffs)
      × (s'.chat_subscribers ≡ s.chat_subscribers)

  pub track-Frame :
      (s : ConnectionState net) (p : PeerId) (t : Option String)
      → Frame s (track_gossip_peer net s p t).0
  unfolding track_gossip_peer
  track-Frame s p t = ground arith

  pub untrack-Frame :
      (s : ConnectionState net) (p : PeerId) → Frame s (untrack_gossip_peer net s p).0
  unfolding untrack_gossip_peer
  untrack-Frame s p = ground arith

  pub warmup-Frame :
      (s : ConnectionState net) (p : PeerId) (now : Instant)
      → Frame s (start_gossip_warmup net s p now).0
  unfolding start_gossip_warmup
  warmup-Frame s p now = ground arith

  pub allows-Frame :
      (s : ConnectionState net) (p : PeerId) (now : Instant)
      → Frame s (gossip_warmup_allows_promotion net s p now).0
  unfolding gossip_warmup_allows_promotion
  allows-Frame s p now = ground arith

  attempt-Frame :
      (s : ConnectionState net) (p : PeerId) (as' : List Multiaddr) (now : Instant)
      → Frame s (attempt_promotion net s p as' now).0
  unfolding attempt_promotion
  attempt-Frame s p as' now = ground arith

  pub promote-Frame :
      (s : ConnectionState net) (p : PeerId) (now : Instant)
      → Frame s (maybe_promote_relayed_peer net s p now).0
  unfolding maybe_promote_relayed_peer
  promote-Frame s p now = elim (Option-cases (HashMap.get s.direct_addresses p)) [
    | inl e ↦ ground arith
    | inr (as', e) ↦ ground (
      arith,
      allows-Frame s p now,
      attempt-Frame (gossip_warmup_allows_promotion net s p now).0 p as' now,
    )
  ]

  pub reset-Frame : (s : ConnectionState net) (p : PeerId) → Frame s (reset_backoff net s p).0
  unfolding reset_backoff
  reset-Frame s p = ground arith

  pub failure-Frame :
      (s : ConnectionState net) (p : PeerId) (reason : String) (now : Instant)
      → Frame s (record_direct_promotion_failure net s p reason now).0
  unfolding record_direct_promotion_failure
  failure-Frame s p reason now = ground arith

  pub remember-Frame :
      (s : ConnectionState net) (p : PeerId) (as' : List Multiaddr)
      → Frame s (remember_direct_addresses net s p as').0
  unfolding remember_direct_addresses
  remember-Frame s p as' = ground arith

  -- When the last link to a peer closes, nothing about the peer is kept but, if the state listed them, the
  -- connections that were not closed: no backoff, subscription, address, warmup, handoff or gossip entry.
  pub disconnect_forgets :
      (s : ConnectionState net) (p : PeerId) (id : ConnectionId) (was_relayed : Bool)
      → let s' = (connection_closed net s p id was_relayed 0).0 in
        (HashMap.get s'.backoffs p ≡ none)
        × (contains s'.chat_subscribers p ≡ false)
        × (HashMap.get s'.direct_addresses p ≡ none)
        × (HashMap.get s'.warmups p ≡ none)
        × (contains s'.warmup_completed p ≡ false)
        × (HashMap.get s'.relay_handoffs p ≡ none)
        × (contains s'.gossip_peers p ≡ false)
  unfolding connection_closed untrack_gossip_peer remove
  disconnect_forgets s p id was_relayed = (
    get-remove_self _ p,
    gone _ p,
    get-remove_self _ p,
    get-remove_self _ p,
    gone _ p,
    get-remove_self _ p,
    gone _ p,
  )
