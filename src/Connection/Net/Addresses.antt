-- ===== src/Connection/Net/Addresses.antt =====
-- src/connection_state.rs: normalize_direct_peer_address.
use link_ear.Prelude.{
  ◌≡◌, refl, ap, ◌∙◌, Bool, true, false, ◌||◌, Option, none, some, List, [], ◌∷◌, ◌++◌, arith,
  is_some, string_eq, nat_eq, bool_eq, option_eq, beq_refl, any,
}
use link_ear.Core.Types.{PeerId}
use link_ear.Connection.Net.{
  Net, Protocol, p2p, p2p_circuit, ip4, ip6, other, is_circuit, is_unspecified, last_peer,
  scan_peers, is_relay_address, is_unspecified_ip_address, peer_id_from_multiaddr,
  normalize_direct_peer_address,
}

any-append :
    (f : Protocol → Bool) (xs ys : List Protocol) → any f (xs ++ ys) ≡ (any f xs || any f ys)
any-append f [] ys = refl
any-append f (x ∷ xs) ys = ground (arith, any-append f xs ys)

last_peer-append :
    (found : Option PeerId) (ps : List Protocol) (p : PeerId)
    → last_peer found (ps ++ p2p p ∷ []) ≡ some p
last_peer-append found [] p = refl
last_peer-append found (p2p id ∷ ps) p = last_peer-append (some id) ps p
last_peer-append found (p2p_circuit ∷ ps) p = last_peer-append found ps p
last_peer-append found (ip4 u ∷ ps) p = last_peer-append found ps p
last_peer-append found (ip6 u ∷ ps) p = last_peer-append found ps p
last_peer-append found (other ∷ ps) p = last_peer-append found ps p

-- A scan that finds the peer ends with it.
last_peer-scan :
    (p : PeerId) (found : Bool) (last : Option PeerId) (ps : List Protocol)
    → (found ≡ true → last ≡ some p)
    → scan_peers p found ps ≡ some true
    → last_peer last ps ≡ some p
last_peer-scan p found last [] f h = ground arith
last_peer-scan p found last (p2p id ∷ ps) f h =
    last_peer-scan p true (some id) ps (λ t. ground (arith, string_eq.beq_iff id p)) (ground arith)
last_peer-scan p found last (p2p_circuit ∷ ps) f h = last_peer-scan p found last ps f h
last_peer-scan p found last (ip4 u ∷ ps) f h = last_peer-scan p found last ps f h
last_peer-scan p found last (ip6 u ∷ ps) f h = last_peer-scan p found last ps f h
last_peer-scan p found last (other ∷ ps) f h = last_peer-scan p found last ps f h

scan_peers-append :
    (p : PeerId) (found : Bool) (ps : List Protocol)
    → is_some (scan_peers p found ps) ≡ true
    → scan_peers p found (ps ++ p2p p ∷ []) ≡ some true
scan_peers-append p found [] h = ground (arith, beq_refl p)
scan_peers-append p found (p2p id ∷ ps) h = ground (arith, scan_peers-append p true ps)
scan_peers-append p found (p2p_circuit ∷ ps) h = scan_peers-append p found ps h
scan_peers-append p found (ip4 u ∷ ps) h = scan_peers-append p found ps h
scan_peers-append p found (ip6 u ∷ ps) h = scan_peers-append p found ps h
scan_peers-append p found (other ∷ ps) h = scan_peers-append p found ps h

module _ (net : Net) where
  open net use {Multiaddr, iter, with_protocol, iter-with_protocol}

  -- What a direct address is: it runs over no relay, names no unspecified host, and names no peer but p, last.
  abbrev Direct : PeerId → Multiaddr → Type 0
  Direct p a =
      (is_relay_address net a ≡ false)
      × (is_unspecified_ip_address net a ≡ false)
      × (scan_peers p false (iter a) ≡ some true)

  with_protocol-Direct :
      (p : PeerId) (a : Multiaddr)
      → is_relay_address net a ≡ false
      → is_unspecified_ip_address net a ≡ false
      → is_some (scan_peers p false (iter a)) ≡ true
      → Direct p (with_protocol a (p2p p))
  unfolding is_relay_address is_unspecified_ip_address
  with_protocol-Direct p a relay host scan =
      let named = iter-with_protocol a (p2p p) in
      (
        ap (any is_circuit) named ∙ ground (arith, any-append is_circuit (iter a) (p2p p ∷ [])),
        ap (any is_unspecified) named
            ∙ ground (arith, any-append is_unspecified (iter a) (p2p p ∷ [])),
        ap (scan_peers p false) named ∙ scan_peers-append p false (iter a) scan,
      )

  Direct-normalize :
      (p : PeerId) (a b : Multiaddr) → normalize_direct_peer_address net p a ≡ some b → Direct p b
  unfolding normalize_direct_peer_address is_relay_address is_unspecified_ip_address
  Direct-normalize p a b h = ground (arith, with_protocol-Direct p a)

  -- An address that is normalised for a peer runs over no relay, names no unspecified host, ends with that
  -- peer among the peers that it names, and stays as it is when it is normalised again.
  pub normalize_direct_peer_address_lem :
      (p : PeerId) (a b : Multiaddr)
      → normalize_direct_peer_address net p a ≡ some b
      → (is_relay_address net b ≡ false)
        × (is_unspecified_ip_address net b ≡ false)
        × (peer_id_from_multiaddr net b ≡ some p)
        × (normalize_direct_peer_address net p b ≡ some b)
  unfolding normalize_direct_peer_address peer_id_from_multiaddr
  normalize_direct_peer_address_lem p a b h =
      let (relay, host, scan) = Direct-normalize p a b h in
      (relay, host, last_peer-scan p false none (iter b) (λ e. cc) scan, ground arith)
