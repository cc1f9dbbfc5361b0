-- ===== src/Connection/Views.antt =====
-- src/connection_state.rs: peer_views, what the front end is shown of the peers.
use link_ear.Prelude.{
  ℕ, String, ◌≡◌, Bool, false, ◌&&◌, ◌||◌, none, some, List, [], ◌∷◌, map, arith, ltb, leb,
  if◌then◌else◌, is_some_and, ◌==◌, string_eq, nat_eq, bool_eq, option_eq, beq_refl,
}
use link_ear.Prelude.Text.{str_lt}
use link_ear.Prelude.HashSet
use link_ear.Prelude.HashSet.{HashSet}
use link_ear.Prelude.HashMap
use link_ear.Core.Types.{PeerId, PeerConnectionView}
use link_ear.Connection.Net.{Net}
use link_ear.Connection.Backoff.{direct_promotion_max_failures}
use link_ear.Connection.State.{ConnectionState, PeerConnectionRoutes}

-- `extend`.
abbrev extend : HashSet PeerId → List PeerId → HashSet PeerId
extend s [] = s
extend s (p ∷ ps) = extend (HashSet.insert s p).0 ps

abbrev route_name : ℕ → ℕ → String
route_name direct_connections relayed_connections =
    if ltb 0 direct_connections
    then if ltb 0 relayed_connections then "direct+relay" else "direct"
    else if ltb 0 relayed_connections
    then "relay"
    else "known"

-- By kind, then by route, then by peer.
abbrev view_lt : PeerConnectionView → PeerConnectionView → Bool
view_lt left right =
    str_lt left.kind right.kind
    || ((left.kind == right.kind)
        && (str_lt left.route right.route
            || ((left.route == right.route) && str_lt left.peer_id right.peer_id)))

abbrev insert_view : PeerConnectionView → List PeerConnectionView → List PeerConnectionView
insert_view v [] = v ∷ []
insert_view v (w ∷ ws) = let rest = insert_view v ws in if view_lt w v then w ∷ rest else v ∷ w ∷ ws

-- `sort_by` is stable.
abbrev sort_views : List PeerConnectionView → List PeerConnectionView
sort_views [] = []
sort_views (v ∷ vs) = insert_view v (sort_views vs)

module _ (net : Net) where
  unfoldable pub direct_count : PeerConnectionRoutes net → ℕ
  direct_count r = HashSet.len r.direct

  unfoldable pub relayed_count : PeerConnectionRoutes net → ℕ
  relayed_count r = HashSet.len r.relayed

  abbrev known_peers : ConnectionState net → HashSet PeerId → HashSet PeerId
  known_peers s rendezvous_nodes =
      let routed = extend HashSet.new (HashMap.keys s.routes) in
      let addressed = extend routed (HashMap.keys s.direct_addresses) in
      let tried = extend addressed (HashMap.keys s.backoffs) in
      let subscribed = extend tried s.chat_subscribers in
      HashSet.delete (extend subscribed rendezvous_nodes) s.local_peer_id

  unfoldable pub peer_view : ConnectionState net → HashSet PeerId → PeerId → PeerConnectionView
  unfolding direct_count relayed_count
  peer_view s rendezvous_nodes peer_id =
      let routes = HashMap.get s.routes peer_id in
      let direct : ℕ = elim routes [ none ↦ 0 | some r ↦ direct_count r ] in
      let relayed : ℕ = elim routes [ none ↦ 0 | some r ↦ relayed_count r ] in
      let backoff = HashMap.get s.backoffs peer_id in
      record {
        peer_id = peer_id;
        kind = if HashSet.contains rendezvous_nodes peer_id then "rendezvous" else "room";
        route = route_name direct relayed;
        direct_connections = direct;
        relayed_connections = relayed;
        direct_address_count = elim (HashMap.get s.direct_addresses peer_id) [
          | none ↦ 0
          | some known ↦ HashSet.len known
        ];
        chat_subscribed = HashSet.contains s.chat_subscribers peer_id;
        direct_promotion_attempts = elim backoff [ none ↦ 0 | some b ↦ b.attempts ];
        direct_promotion_failures = elim backoff [ none ↦ 0 | some b ↦ b.failures ];
        direct_promotion_in_flight = is_some_and backoff (λ b. b.in_flight);
        direct_promotion_suspended =
            is_some_and backoff (λ b. leb direct_promotion_max_failures b.failures);
      }

  unfoldable pub peer_views : ConnectionState net → HashSet PeerId → List PeerConnectionView
  unfolding peer_view
  peer_views s rendezvous_nodes =
      sort_views (map (peer_view s rendezvous_nodes) (known_peers s rendezvous_nodes))

  -- The local peer is never shown.
  pub known_peers-local :
      (s : ConnectionState net) (rendezvous_nodes : HashSet PeerId)
      → HashSet.contains (known_peers s rendezvous_nodes) s.local_peer_id ≡ false
  known_peers-local s rendezvous_nodes =
      let named =
        extend
          (extend
            (extend
              (extend (extend HashSet.new (HashMap.keys s.routes))
                (HashMap.keys s.direct_addresses))
              (HashMap.keys s.backoffs))
            s.chat_subscribers)
          rendezvous_nodes in
      ground (
        arith,
        HashSet.contains-delete named s.local_peer_id s.local_peer_id,
        beq_refl s.local_peer_id,
      )
