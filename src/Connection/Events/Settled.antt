-- ===== src/Connection/Events/Settled.antt =====
-- src/connection_state.rs: the handoffs when a connection is established.
use link_ear.Prelude.{
  inl, inr, Bool, some, [], ◌∷◌, arith, Bool-cases, string_eq, nat_eq, bool_eq, option_eq,
}
use link_ear.Prelude.Words.{Instant}
use link_ear.Prelude.Text.{concat}
use link_ear.Core.Types.{PeerId}
use link_ear.Connection.Net.{Net}
use link_ear.Connection.State.{ConnectionState, has_relayed, is_chat_subscribed}
use link_ear.Connection.Promotion.{
  track_gossip_peer, start_gossip_warmup, gossip_warmup_allows_promotion,
  maybe_promote_relayed_peer, reset_backoff,
}
use link_ear.Connection.Events.{
  established_routes, promoted, established_relayed, established_direct, connection_established,
}
use link_ear.Connection.Events.Routes.{
  track-Frame, warmup-Frame, allows-Frame, promote-Frame, reset-Frame,
}
use link_ear.Connection.Events.Handoff.{
  HandoffsReady, framed, schedule-Ready, established_routes-Ready,
}

module _ (net : Net) where
  open net use {ConnectionId}

  promoted-Ready :
      (s : ConnectionState net) (p : PeerId) (relayed : Bool) (now : Instant)
      → HandoffsReady net s
      → HandoffsReady net (promoted net s p relayed now).0
  unfolding promoted
  promoted-Ready s p relayed now r q h =
      let s' = (reset_backoff net s p).0 in
      let r' = framed net s s' (reset-Frame net s p) r in
      elim (Bool-cases (is_chat_subscribed net s' p)) [
        | inl e ↦ ground (arith, r' q, schedule-Ready net s' p now e r' q)
        | inr e ↦ ground (arith, r' q)
      ]

  established_relayed-Ready :
      (s : ConnectionState net) (p : PeerId) (rendezvous : Bool) (now : Instant)
      → HandoffsReady net s
      → HandoffsReady net (established_relayed net s p rendezvous now).0
  unfolding established_relayed
  established_relayed-Ready s p rendezvous now r q h =
      let warm = (start_gossip_warmup net s p now).0 in
      let rw' = framed net s warm (warmup-Frame net s p now) r in
      let next = (maybe_promote_relayed_peer net s p now).0 in
      let next' = (maybe_promote_relayed_peer net warm p now).0 in
      ground (
        arith,
        framed net s next (promote-Frame net s p now) r q,
        framed net warm next' (promote-Frame net warm p now) rw' q,
      )

  established_direct-Ready :
      (s : ConnectionState net) (p : PeerId) (id : ConnectionId) (now : Instant)
      → HandoffsReady net s
      → HandoffsReady net (established_direct net s p id now).0
  unfolding established_direct
  established_direct-Ready s p id now r q h =
      let s' = (gossip_warmup_allows_promotion net s p now).0 in
      let r' = framed net s s' (allows-Frame net s p now) r in
      ground (
        arith,
        promoted-Ready s p (has_relayed net s p) now r q,
        r' q,
        promoted-Ready s' p (has_relayed net s p) now r' q,
      )

  pub established-Ready :
      (s : ConnectionState net) (p : PeerId) (id : ConnectionId) (is_relayed rendezvous : Bool)
      (now : Instant)
      → HandoffsReady net s
      → HandoffsReady net (connection_established net s p id is_relayed rendezvous now).0
  unfolding connection_established
  established-Ready s p id is_relayed rendezvous now r q h =
      let s1 = established_routes net s p id is_relayed in
      let r1 = established_routes-Ready net s p id is_relayed r in
      let t = some (concat ("tracking " ∷ p ∷ " as gossip peer" ∷ [])) in
      let s2 = (track_gossip_peer net s1 p t).0 in
      let r2 = framed net s1 s2 (track-Frame net s1 p t) r1 in
      ground (
        arith,
        established_relayed-Ready s1 p rendezvous now r1 q,
        established_relayed-Ready s2 p rendezvous now r2 q,
        established_direct-Ready s1 p id now r1 q,
        established_direct-Ready s2 p id now r2 q,
      )
