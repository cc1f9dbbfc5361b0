-- ===== src/Connection/Events/Dial.antt =====
-- src/connection_state.rs: when a relayed peer is dialled directly, and when its relay is closed.
use link_ear.Prelude.{
  ◌≡◌, refl, ◌⊎◌, inl, inr, Bool, true, false, ◌||◌, none, List, [], ◌∷◌, ◌++◌, arith, Option-cases,
  ◌==◌, string_eq, nat_eq, bool_eq, option_eq, any,
}
use link_ear.Prelude.Words.{Instant}
use link_ear.Prelude.HashMap
use link_ear.Prelude.HashMap.{get-insert_self}
use link_ear.Core.Types.{PeerId}
use link_ear.Connection.Net.{Net}
use link_ear.Connection.Backoff.{DirectPromotionBackoff, should_attempt, mark_attempt}
use link_ear.Connection.State.{
  ConnectionState, ConnectionEffect, status, track_gossip, untrack_gossip, reset_backoff_of,
  dial_direct, close_relay_connections, close_early_direct, handoff_settled, has_direct,
  has_relayed, is_chat_subscribed, is_relay_only, relay_connections,
}
use link_ear.Connection.Promotion.{
  backoff_of, attempt_promotion, start_gossip_warmup, gossip_warmup_allows_promotion,
  maybe_promote_relayed_peer, close_relay_after_handoff,
}

module _ (net : Net) where
  open net use {ConnectionId, Multiaddr}

  abbrev pub is_dial : ConnectionEffect net → Bool
  is_dial (status text) = false
  is_dial (track_gossip p) = false
  is_dial (untrack_gossip p) = false
  is_dial (reset_backoff_of p) = false
  is_dial (dial_direct p as') = true
  is_dial (close_relay_connections p ids reason) = false
  is_dial (close_early_direct p id) = false

  abbrev pub dials : List (ConnectionEffect net) → Bool
  dials effects = any is_dial effects

  any-append : (xs ys : List (ConnectionEffect net)) → dials (xs ++ ys) ≡ (dials xs || dials ys)
  any-append [] ys = refl
  any-append (x ∷ xs) ys = ground (arith, any-append xs ys)

  -- The warmup dials nobody, and leaves the connections and the backoffs.
  allows_quiet :
      (s : ConnectionState net) (p : PeerId) (now : Instant)
      → let (s', effects, allowed) = gossip_warmup_allows_promotion net s p now in
        (dials effects ≡ false)
        × (s'.backoffs ≡ s.backoffs)
        × (s'.routes ≡ s.routes)
        × (s'.local_peer_id ≡ s.local_peer_id)
  unfolding gossip_warmup_allows_promotion start_gossip_warmup
  allows_quiet s p now = ground arith

  in_flight_waits :
      (b : DirectPromotionBackoff) (now later : Instant)
      → should_attempt (mark_attempt b now) later ≡ false
  unfolding should_attempt mark_attempt
  in_flight_waits b now later = refl

  attempt_dials :
      (s : ConnectionState net) (p : PeerId) (as' : List Multiaddr) (now later : Instant)
      → dials (attempt_promotion net s p as' now).1 ≡ true
      → (should_attempt (backoff_of net s p) now ≡ true)
        × (should_attempt (backoff_of net (attempt_promotion net s p as' now).0 p) later ≡ false)
  unfolding attempt_promotion
  attempt_dials s p as' now later h =
      let b = backoff_of net s p in
      ground (arith, in_flight_waits b now later, get-insert_self s.backoffs p (mark_attempt b now))

  -- A promotion dials only a peer that is not the local one, has relayed connections and no direct one,
  -- and whose backoff allows an attempt; the attempt is then in flight, and its backoff allows no other at any later time.
  pub dial_guarded :
      (s : ConnectionState net) (p : PeerId) (now later : Instant)
      → dials (maybe_promote_relayed_peer net s p now).1 ≡ true
      → ((p == s.local_peer_id) ≡ false)
        × (is_relay_only net s p ≡ true)
        × (should_attempt (backoff_of net s p) now ≡ true)
        × (should_attempt (backoff_of net (maybe_promote_relayed_peer net s p now).0 p) later
            ≡ false)
  unfolding maybe_promote_relayed_peer
  dial_guarded s p now later h = elim (Option-cases (HashMap.get s.direct_addresses p)) [
    | inl e ↦ ground arith
    | inr (as', e) ↦
        let s' = (gossip_warmup_allows_promotion net s p now).0 in
        let warmed = (gossip_warmup_allows_promotion net s p now).1 in
        ground (
          arith,
          allows_quiet s p now,
          any-append warmed (attempt_promotion net s' p as' now).1,
          attempt_dials s' p as' now later,
        )
  ]

  -- Settling a handoff asks at most for one thing: to close the relayed connections of the peer, all of them and no others, and only
  -- if it has a direct connection and subscribes to the chat. The handoff is over in any case.
  pub close_relay_guarded :
      (s : ConnectionState net) (p : PeerId)
      → let (s', effects) = close_relay_after_handoff net s p in
        ((effects ≡ [])
          ⊎ ((effects ≡ close_relay_connections p (relay_connections net s p) handoff_settled ∷ [])
              × (has_direct net s p ≡ true)
              × (has_relayed net s p ≡ true)
              × (is_chat_subscribed net s p ≡ true)))
        × (HashMap.get s'.relay_handoffs p ≡ none)
  unfolding close_relay_after_handoff
  close_relay_guarded s p = ground (arith, HashMap.get-remove_self s.relay_handoffs p)
