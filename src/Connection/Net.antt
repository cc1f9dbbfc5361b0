-- ===== src/Connection/Net.antt =====
-- src/connection_state.rs: addresses of peers. libp2p's Multiaddr and ConnectionId are parameters: an
-- address is what its protocols, its text and the appending of a protocol say about it.
pub mod Addresses
use link_ear.Prelude.{
  ℕ, String, ◌≡◌, Bool, true, false, ◌||◌, Option, none, some, List, [], ◌∷◌, ◌++◌, ltb,
  if◌then◌else◌, is_some, Eq, ◌==◌, ◌!=◌, string_eq, nat_eq, bool_eq, option_eq, any,
}
use text.Mathlib.Text.{find?}
use link_ear.Core.Types.{PeerId}

-- What the program tells apart in a protocol of an address.
pub data Protocol : Type 0 where
  p2p : PeerId → Protocol
  p2p_circuit : Protocol
  ip4 ip6 : (is_unspecified : Bool) → Protocol
  other : Protocol

pub record Net : Type 1 where
  pub ConnectionId : Type 0
  pub connection_eq : Eq ConnectionId
  pub Multiaddr : Type 0
  pub multiaddr_eq : Eq Multiaddr
  pub iter : Multiaddr → List Protocol
  pub with_protocol : Multiaddr → Protocol → Multiaddr
  pub to_text : Multiaddr → String
  -- `Multiaddr::with` appends a protocol.
  pub iter-with_protocol :
      (a : Multiaddr) (p : Protocol) → iter (with_protocol a p) ≡ iter a ++ p ∷ []

abbrev pub is_circuit : Protocol → Bool
is_circuit p2p_circuit = true
is_circuit _ = false

abbrev pub is_unspecified : Protocol → Bool
is_unspecified (ip4 u) = u
is_unspecified (ip6 u) = u
is_unspecified _ = false

-- The last P2p protocol, as `filter_map(..).last()` finds it.
abbrev pub last_peer : Option PeerId → List Protocol → Option PeerId
last_peer found [] = found
last_peer found (p2p id ∷ ps) = last_peer (some id) ps
last_peer found (_ ∷ ps) = last_peer found ps

-- The scan of normalize_direct_peer_address: `none` where another peer is named, and else whether the
-- peer is named.
abbrev pub scan_peers : PeerId → Bool → List Protocol → Option Bool
scan_peers peer_id found [] = some found
scan_peers peer_id found (p2p id ∷ ps) =
    let rest = scan_peers peer_id true ps in if id != peer_id then none else rest
scan_peers peer_id found (_ ∷ ps) = scan_peers peer_id found ps

module _ (net : Net) where
  open net use {Multiaddr, iter, with_protocol, to_text}

  unfoldable pub is_relay_address : Multiaddr → Bool
  is_relay_address address = any is_circuit (iter address)

  unfoldable pub is_unspecified_ip_address : Multiaddr → Bool
  is_unspecified_ip_address address = any is_unspecified (iter address)

  unfoldable pub peer_id_from_multiaddr : Multiaddr → Option PeerId
  peer_id_from_multiaddr address = last_peer none (iter address)

  unfoldable pub normalize_peer_address : PeerId → Multiaddr → Option Multiaddr
  unfolding is_unspecified_ip_address
  normalize_peer_address peer_id address =
      if is_unspecified_ip_address address then none else elim (last_peer none (iter address)) [
        | some id ↦ if id == peer_id then some address else none
        | none ↦ some (with_protocol address (p2p peer_id))
      ]

  unfoldable pub normalize_direct_peer_address : PeerId → Multiaddr → Option Multiaddr
  unfolding is_relay_address is_unspecified_ip_address
  normalize_direct_peer_address peer_id address =
      if is_relay_address address || is_unspecified_ip_address address
      then none
      else elim (scan_peers peer_id false (iter address)) [
        | none ↦ none
        | some has_target ↦
            if has_target then some address else some (with_protocol address (p2p peer_id))
      ]

  unfoldable pub ipv6_preference_score : Multiaddr → ℕ
  ipv6_preference_score address =
      let text = to_text address in
      if is_some (find? text "/ip6/") || is_some (find? text "/dns6/")
      then 2
      else if is_some (find? text "/ip4/") || is_some (find? text "/dns4/")
      then 1
      else 0

  -- `sort_by` is stable; a higher score comes first.
  abbrev pub insert_by_score : Multiaddr → List Multiaddr → List Multiaddr
  insert_by_score a [] = a ∷ []
  insert_by_score a (b ∷ bs) =
      let rest = b ∷ insert_by_score a bs in
      if ltb (ipv6_preference_score a) (ipv6_preference_score b) then rest else a ∷ b ∷ bs

  unfoldable pub prioritize_multiaddrs : List Multiaddr → List Multiaddr
  prioritize_multiaddrs [] = []
  prioritize_multiaddrs (a ∷ as') = insert_by_score a (prioritize_multiaddrs as')
