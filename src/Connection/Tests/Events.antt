-- ===== src/Connection/Tests/Events.antt =====
-- src/connection_state.rs: a peer whose relayed connection is replaced by a direct one.
use link_ear.Prelude.HashMap
use link_ear.Prelude.{
  ℕ, zero, suc, ◌+◌, String, ◌≡◌, refl, sym, ap, ◌∙◌, ◌↔◌, Bool, true, false, ◌&&◌, some, List, [],
  ◌∷◌, ◌++◌, arith, ◌==◌, string_eq, nat_eq, bool_eq, option_eq, beq_refl,
}
use link_ear.Prelude.Words.{from_secs}
use link_ear.Prelude.HashSet.{contains, delete, insert}
use link_ear.Prelude.HashMap.{get-remove, get-remove_self, get-insert}
use link_ear.Connection.Net.{
  Net, Protocol, p2p, p2p_circuit, ip4, ip6, other, normalize_direct_peer_address,
}
use link_ear.Connection.State.{
  ConnectionState, has_direct, has_relayed, new, is_chat_subscribed, no_routes, add_route,
  is_relay_only,
}
use link_ear.Connection.Promotion.{
  track_gossip_peer, start_gossip_warmup, gossip_warmup_allows_promotion, attempt_promotion,
  maybe_promote_relayed_peer, reset_backoff, remember_direct_addresses, schedule_relay_handoff,
  backoff_of,
}
use link_ear.Connection.Events.{
  established_routes, promoted, established_relayed, established_direct, connection_established,
  learn_direct_addresses, chat_subscribed,
}
use link_ear.Connection.Events.Handoff.{HandoffsReady}
use link_ear.Connection.Events.Runs.{
  handle_all-HandoffsReady, handle_all, Event, established, learned, subscribed,
}
use mathlib.Core.Path.{subst}
use link_ear.Connection.Backoff.{should_attempt}
use link_ear.Connection.Events.Dial.{dials, dial_guarded}

abbrev tag : Protocol → ℕ × String
tag (p2p id) = (0, id)
tag p2p_circuit = (1, "")
tag (ip4 true) = (2, "")
tag (ip4 false) = (3, "")
tag (ip6 true) = (4, "")
tag (ip6 false) = (5, "")
tag other = (6, "")

abbrev untag : ℕ × String → Protocol
untag (zero, id) = p2p id
untag (suc zero, id) = p2p_circuit
untag (suc (suc zero), id) = ip4 true
untag (suc (suc (suc zero)), id) = ip4 false
untag (suc (suc (suc (suc zero))), id) = ip6 true
untag (suc (suc (suc (suc (suc zero)))), id) = ip6 false
untag (n, id) = other

untag-tag : (p : Protocol) → untag (tag p) ≡ p
untag-tag (p2p id) = refl
untag-tag p2p_circuit = refl
untag-tag (ip4 true) = refl
untag-tag (ip4 false) = refl
untag-tag (ip6 true) = refl
untag-tag (ip6 false) = refl
untag-tag other = refl

tag_inj : (p q : Protocol) → tag p ≡ tag q → p ≡ q
tag_inj p q e = sym (untag-tag p) ∙ ap untag e ∙ untag-tag q

abbrev protocol_beq : Protocol → Protocol → Bool
protocol_beq p q = ((tag p).0 == (tag q).0) && ((tag p).1 == (tag q).1)

abbrev list_beq : List Protocol → List Protocol → Bool
list_beq [] [] = true
list_beq [] (q ∷ qs) = false
list_beq (p ∷ ps) [] = false
list_beq (p ∷ ps) (q ∷ qs) = protocol_beq p q && list_beq ps qs

protocol_beq_iff : (p q : Protocol) → (protocol_beq p q ≡ true) ↔ (p ≡ q)
protocol_beq_iff p q = (
  (λ h. tag_inj p q (ground (arith, string_eq.beq_iff (tag p).1 (tag q).1))),
  (λ e.
      subst (λ r. protocol_beq p r ≡ true) e
        (ground (arith, beq_refl (tag p).0, beq_refl (tag p).1))),
)

list_beq_iff : (ps qs : List Protocol) → (list_beq ps qs ≡ true) ↔ (ps ≡ qs)
list_beq_iff [] [] = ((λ h. refl), (λ e. refl))
list_beq_iff [] (q ∷ qs) = ((λ h. cc), (λ e. cc))
list_beq_iff (p ∷ ps) [] = ((λ h. cc), (λ e. cc))
list_beq_iff (p ∷ ps) (q ∷ qs) = (
  (λ h. ground (arith, protocol_beq_iff p q, list_beq_iff ps qs)),
  (λ e. ground (arith, protocol_beq_iff p q, list_beq_iff ps qs)),
)

-- An address is the list of its protocols.
abbrev sample_net : Net
sample_net = record {
  ConnectionId = ℕ;
  connection_eq = nat_eq;
  Multiaddr = List Protocol;
  multiaddr_eq = record { beq = list_beq; beq_iff = list_beq_iff };
  iter = λ a. a;
  with_protocol = λ a p. a ++ p ∷ [];
  to_text = λ a. "";
  iter-with_protocol = λ a p. refl;
}

abbrev to_bob : List Protocol
to_bob = ip4 false ∷ other ∷ p2p "bob" ∷ []

abbrev events : List (Event sample_net)
events =
    established "bob" 1 true false 10
    ∷ subscribed "bob" 20
    ∷ learned "bob" (to_bob ∷ []) 30
    ∷ established "bob" 2 false false 40
    ∷ []

abbrev linked : ConnectionState sample_net
linked = handle_all sample_net (new sample_net "alice") events

-- The handoff is planned for ten seconds after the direct connection.
planned :
    HashMap.get (handle_all sample_net (new sample_net "alice") events).relay_handoffs "bob"
    ≡ some (40 + from_secs 10)
unfolding new HashMap.get connection_established chat_subscribed learn_direct_addresses
    established_routes established_relayed established_direct promoted track_gossip_peer
    start_gossip_warmup maybe_promote_relayed_peer schedule_relay_handoff reset_backoff
    remember_direct_addresses has_direct has_relayed is_relay_only is_chat_subscribed add_route
    no_routes insert contains attempt_promotion gossip_warmup_allows_promotion HashMap.insert
    HashMap.remove delete normalize_direct_peer_address should_attempt
planned = refl

handle_all-HandoffsReady_example :
    HandoffsReady sample_net (handle_all sample_net (new sample_net "alice") events)
handle_all-HandoffsReady_example = handle_all-HandoffsReady sample_net "alice" events

abbrev relayed_events : List (Event sample_net)
relayed_events = established "bob" 1 true false 10 ∷ subscribed "bob" 20 ∷ []

-- The peer has subscribed over the relay, and one of its direct addresses is known.
abbrev relayed : ConnectionState sample_net
relayed = record (handle_all sample_net (new sample_net "alice") relayed_events) {
  direct_addresses = ("bob", to_bob ∷ []) ∷ [];
}

dials_bob : dials sample_net (maybe_promote_relayed_peer sample_net relayed "bob" 30).1 ≡ true
unfolding new HashMap.get connection_established chat_subscribed established_routes
    established_relayed track_gossip_peer start_gossip_warmup maybe_promote_relayed_peer has_direct
    is_relay_only is_chat_subscribed add_route no_routes insert contains attempt_promotion
    gossip_warmup_allows_promotion HashMap.insert HashMap.remove delete should_attempt
dials_bob = refl

dial_guarded_example :
    ((◌==◌ {A = String} "bob" relayed.local_peer_id) ≡ false)
    × (is_relay_only sample_net relayed "bob" ≡ true)
    × (should_attempt (backoff_of sample_net relayed "bob") 30 ≡ true)
    × (should_attempt
          (backoff_of sample_net (maybe_promote_relayed_peer sample_net relayed "bob" 30).0 "bob")
          31
        ≡ false)
dial_guarded_example = dial_guarded sample_net relayed "bob" 30 31 dials_bob

abbrev nameless : List Protocol
nameless = ip4 false ∷ other ∷ []
