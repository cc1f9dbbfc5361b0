-- ===== src/Connection/State.antt =====
-- src/connection_state.rs: the state of the connections, the effects that it asks for, and what it
-- answers about a peer.
use link_ear.Prelude.{
  String, Bool, not, ◌&&◌, none, some, List, [], leb, if◌then◌else◌, is_some_and, string_eq, nat_eq,
  bool_eq, option_eq,
}
use link_ear.Prelude.Words.{Duration, Instant, duration_since, from_secs}
use link_ear.Prelude.HashSet
use link_ear.Prelude.HashSet.{HashSet}
use link_ear.Prelude.HashMap
use link_ear.Prelude.HashMap.{HashMap}
use link_ear.Core.Types.{PeerId}
use link_ear.Connection.Net.{Net}
use link_ear.Connection.Backoff.{DirectPromotionBackoff}

abbrev pub gossip_warmup_timeout : Duration
gossip_warmup_timeout = from_secs 5

abbrev pub direct_relay_handoff_grace : Duration
direct_relay_handoff_grace = from_secs 10

pub data RelayCloseReason : Type 0 where
  handoff_settled : RelayCloseReason

pub record GossipsubWarmup : Type 0 where
  pub started_at : Instant

unfoldable pub is_expired : GossipsubWarmup → Instant → Bool
is_expired w now = leb gossip_warmup_timeout (duration_since now w.started_at)

pub data ConnectionEffect (net : Net) : Type 0 where
  status : String → ConnectionEffect net
  track_gossip untrack_gossip reset_backoff_of : PeerId → ConnectionEffect net
  dial_direct : PeerId → List net.Multiaddr → ConnectionEffect net
  close_relay_connections : PeerId → List net.ConnectionId → RelayCloseReason → ConnectionEffect net
  close_early_direct : PeerId → net.ConnectionId → ConnectionEffect net

pub record PeerConnectionRoutes (net : Net) : Type 0 where
  pub direct : HashSet net.ConnectionId
  pub relayed : HashSet net.ConnectionId

pub record ConnectionState (net : Net) : Type 0 where
  pub local_peer_id : PeerId
  pub routes : HashMap PeerId (PeerConnectionRoutes net)
  pub direct_addresses : HashMap PeerId (HashSet net.Multiaddr)
  pub backoffs : HashMap PeerId DirectPromotionBackoff
  pub warmups : HashMap PeerId GossipsubWarmup
  pub warmup_completed : HashSet PeerId
  pub relay_handoffs : HashMap PeerId Instant
  pub chat_subscribers : HashSet PeerId
  pub gossip_peers : HashSet PeerId

module _ (net : Net) where
  open net use {ConnectionId, connection_eq, Multiaddr}

  unfoldable pub no_routes : PeerConnectionRoutes net
  no_routes = record { direct = HashSet.new; relayed = HashSet.new }

  unfoldable pub add_route :
      PeerConnectionRoutes net → ConnectionId → Bool → PeerConnectionRoutes net
  add_route r connection_id is_relayed =
      if is_relayed
      then record r { relayed = (HashSet.insert ⦃e = connection_eq⦄ r.relayed connection_id).0 }
      else record r { direct = (HashSet.insert ⦃e = connection_eq⦄ r.direct connection_id).0 }

  unfoldable pub remove_route :
      PeerConnectionRoutes net → ConnectionId → Bool → PeerConnectionRoutes net
  remove_route r connection_id was_relayed =
      if was_relayed
      then record r { relayed = HashSet.delete ⦃e = connection_eq⦄ r.relayed connection_id }
      else record r { direct = HashSet.delete ⦃e = connection_eq⦄ r.direct connection_id }

  abbrev pub routes_empty : PeerConnectionRoutes net → Bool
  routes_empty r = HashSet.is_empty r.direct && HashSet.is_empty r.relayed

  abbrev pub routes_relay_only : PeerConnectionRoutes net → Bool
  routes_relay_only r = HashSet.is_empty r.direct && not (HashSet.is_empty r.relayed)

  abbrev pub routes_has_direct : PeerConnectionRoutes net → Bool
  routes_has_direct r = not (HashSet.is_empty r.direct)

  abbrev pub routes_has_relayed : PeerConnectionRoutes net → Bool
  routes_has_relayed r = not (HashSet.is_empty r.relayed)

  unfoldable pub new : PeerId → ConnectionState net
  new local_peer_id = record {
    local_peer_id = local_peer_id;
    routes = HashMap.new;
    direct_addresses = HashMap.new;
    backoffs = HashMap.new;
    warmups = HashMap.new;
    warmup_completed = HashSet.new;
    relay_handoffs = HashMap.new;
    chat_subscribers = HashSet.new;
    gossip_peers = HashSet.new;
  }

  unfoldable pub is_chat_subscribed : ConnectionState net → PeerId → Bool
  is_chat_subscribed s peer_id = HashSet.contains s.chat_subscribers peer_id

  unfoldable pub is_relay_only : ConnectionState net → PeerId → Bool
  is_relay_only s peer_id = is_some_and (HashMap.get s.routes peer_id) routes_relay_only

  unfoldable pub has_direct : ConnectionState net → PeerId → Bool
  has_direct s peer_id = is_some_and (HashMap.get s.routes peer_id) routes_has_direct

  unfoldable pub has_relayed : ConnectionState net → PeerId → Bool
  has_relayed s peer_id = is_some_and (HashMap.get s.routes peer_id) routes_has_relayed

  unfoldable pub relay_connections : ConnectionState net → PeerId → List ConnectionId
  relay_connections s peer_id = elim (HashMap.get s.routes peer_id) [
    | none ↦ []
    | some r ↦ r.relayed
  ]
