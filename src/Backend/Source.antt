-- ===== src/Backend/Source.antt =====
-- src/backend.rs: a message is taken only from the peer that it says it is from.
use link_ear.Prelude.{
  String, ◌≡◌, refl, sym, ap, ◌∙◌, ◌↔◌, Bool, true, false, ◌||◌, Option, none, some, arith,
  if◌then◌else◌, is_none_or, ◌==◌, string_eq, nat_eq, bool_eq, option_eq,
}
use mathlib.Core.Option.{some-injective}
use link_ear.Core.Types.{PeerId}
use link_ear.Core.Wire.{WireMessage}

pub data Checked : Type 0 where
  ok : Checked
  err : String → Checked

abbrev checked : Bool → String → Checked
checked fits message = if fits then ok else err message

-- `parse` is libp2p's parser of peer ids.
module _ (parse : String → Option PeerId) where
  unfoldable pub parse_peer_id : String → Option PeerId
  parse_peer_id value = if value == "" then none else parse value

  unfoldable pub peer_field_matches_source : String → PeerId → Bool
  unfolding parse_peer_id
  peer_field_matches_source value source_peer_id = parse_peer_id value == some source_peer_id

  unfoldable pub validate_wire_source : WireMessage → PeerId → Checked
  unfolding peer_field_matches_source
  validate_wire_source (WireMessage.chat id peer_id joined_at seq frontier name text sent_at)
        source =
      checked ((peer_id == "") || peer_field_matches_source peer_id source)
        "chat peer_id does not match source"
  validate_wire_source (WireMessage.name_claim peer_id name joined_at nonce) source =
      checked (peer_field_matches_source peer_id source) "name claim peer_id does not match source"
  validate_wire_source (WireMessage.history_summary peer_id count newest_at nonce) source =
      checked (peer_field_matches_source peer_id source)
        "history summary peer_id does not match source"
  validate_wire_source (WireMessage.history_request requester target known_count nonce) source =
      checked (peer_field_matches_source requester source)
        "history request requester does not match source"
  validate_wire_source (WireMessage.history_response target messages nonce) source = ok
  validate_wire_source (WireMessage.playback_state state nonce) source =
      checked (peer_field_matches_source state.leader_peer_id source)
        "playback leader does not match source"
  validate_wire_source (WireMessage.playback_prepare state expected_peers nonce) source =
      checked (peer_field_matches_source state.leader_peer_id source)
        "playback leader does not match source"
  validate_wire_source (WireMessage.playback_ready session_id peer_id nonce) source =
      checked (peer_field_matches_source peer_id source) "playback ready peer does not match source"
  validate_wire_source (WireMessage.playback_cancel session_id leader_peer_id reason nonce) source =
      checked (peer_field_matches_source leader_peer_id source)
        "playback cancel leader does not match source"
  validate_wire_source
        (WireMessage.playback_buffer_prepare operation_id session_id track_id position kind peers
          leader_peer_id nonce)
        source =
      checked (peer_field_matches_source leader_peer_id source)
        "playback buffer leader does not match source"
  validate_wire_source
        (WireMessage.playback_buffer_status operation_id session_id peer_id status until error
          nonce)
        source =
      checked (peer_field_matches_source peer_id source)
        "playback buffer status peer does not match source"
  validate_wire_source (WireMessage.playback_buffer_health session_id peer_id status until nonce)
        source =
      checked (peer_field_matches_source peer_id source)
        "playback buffer health peer does not match source"
  validate_wire_source
        (WireMessage.playback_buffer_cancel operation_id session_id leader_peer_id reason nonce)
        source =
      checked (peer_field_matches_source leader_peer_id source)
        "playback buffer leader does not match source"
  validate_wire_source (WireMessage.queue_state state nonce) source =
      checked (peer_field_matches_source state.updated_by source)
        "queue state updated_by does not match source"
  validate_wire_source (WireMessage.queue_summary peer_id version updated_at count nonce) source =
      checked (peer_field_matches_source peer_id source)
        "queue summary peer_id does not match source"
  validate_wire_source (WireMessage.queue_request requester target version updated_at nonce)
        source =
      checked (peer_field_matches_source requester source)
        "queue request requester does not match source"
  validate_wire_source (WireMessage.queue_response target state nonce) source =
      checked (peer_field_matches_source state.updated_by source)
        "queue response updated_by does not match source"
  validate_wire_source (WireMessage.vote_proposal proposal nonce) source =
      checked (peer_field_matches_source proposal.proposer source)
        "vote proposer does not match source"
  validate_wire_source (WireMessage.vote_ballot vote_id peer_id approve nonce) source =
      checked (peer_field_matches_source peer_id source) "vote ballot peer does not match source"

-- The peer that a message says it is from: all messages name one but the answers with a history, and chat
-- messages of old peers.
abbrev pub claimed_sender : WireMessage → Option String
claimed_sender (WireMessage.chat id peer_id joined_at seq frontier name text sent_at) =
    if peer_id == "" then none else some peer_id
claimed_sender (WireMessage.name_claim peer_id name joined_at nonce) = some peer_id
claimed_sender (WireMessage.history_summary peer_id count newest_at nonce) = some peer_id
claimed_sender (WireMessage.history_request requester target known_count nonce) = some requester
claimed_sender (WireMessage.history_response target messages nonce) = none
claimed_sender (WireMessage.playback_state state nonce) = some state.leader_peer_id
claimed_sender (WireMessage.playback_prepare state expected_peers nonce) = some state.leader_peer_id
claimed_sender (WireMessage.playback_ready session_id peer_id nonce) = some peer_id
claimed_sender (WireMessage.playback_cancel session_id leader_peer_id reason nonce) =
    some leader_peer_id
claimed_sender
      (WireMessage.playback_buffer_prepare operation_id session_id track_id position kind peers
        leader_peer_id nonce) =
    some leader_peer_id
claimed_sender
      (WireMessage.playback_buffer_status operation_id session_id peer_id status until error
        nonce) =
    some peer_id
claimed_sender (WireMessage.playback_buffer_health session_id peer_id status until nonce) =
    some peer_id
claimed_sender
      (WireMessage.playback_buffer_cancel operation_id session_id leader_peer_id reason nonce) =
    some leader_peer_id
claimed_sender (WireMessage.queue_state state nonce) = some state.updated_by
claimed_sender (WireMessage.queue_summary peer_id version updated_at count nonce) = some peer_id
claimed_sender (WireMessage.queue_request requester target version updated_at nonce) =
    some requester
claimed_sender (WireMessage.queue_response target state nonce) = some state.updated_by
claimed_sender (WireMessage.vote_proposal proposal nonce) = some proposal.proposer
claimed_sender (WireMessage.vote_ballot vote_id peer_id approve nonce) = some peer_id

module _ (parse : String → Option PeerId) where
  -- What the check asks of the claim.
  abbrev accepts : Option String → PeerId → Bool
  accepts claim source = is_none_or claim (λ value. peer_field_matches_source parse value source)

  checked_ok : (fits : Bool) (message : String) → (checked fits message ≡ ok) ↔ (fits ≡ true)
  checked_ok true message = ((λ h. refl), (λ h. refl))
  checked_ok false message = ((λ h. absurd (cc)), (λ h. absurd (cc)))

  validate-accepts :
      (message : WireMessage) (source : PeerId)
      → (validate_wire_source parse message source ≡ ok)
        ↔ (accepts (claimed_sender message) source ≡ true)
  unfolding validate_wire_source
  validate-accepts (WireMessage.chat id peer_id joined_at seq frontier name text sent_at) source =
      ((λ h. ground arith), (λ h. ground arith))
  validate-accepts (WireMessage.history_response target messages nonce) source =
      ((λ h. refl), (λ h. refl))
  validate-accepts message source = checked_ok _ _

  accepts_lem :
      (claim : Option String) (source : PeerId)
      → (accepts claim source ≡ true)
        ↔ ((value : String) → claim ≡ some value → parse_peer_id parse value ≡ some source)
  unfolding peer_field_matches_source
  accepts_lem none source = ((λ h value e. absurd (cc)), (λ h. refl))
  accepts_lem (some claim) source =
      let same = option_eq.beq_iff (parse_peer_id parse claim) (some source) in
      (
        (λ h value e.
            ap (λ v. parse_peer_id parse v) (some-injective value claim (sym e)) ∙ same.0 h),
        (λ h. same.1 (h claim refl)),
      )

  -- A message passes the check exactly when the peer that it says it is from, where it names one, is the
  -- peer that it came from.
  pub validate_wire_source_lem :
      (message : WireMessage) (source : PeerId)
      → (validate_wire_source parse message source ≡ ok) ↔ (
          (value : String)
          → claimed_sender message ≡ some value
          → parse_peer_id parse value ≡ some source)
  validate_wire_source_lem message source =
      let check = validate-accepts message source in
      let meaning = accepts_lem (claimed_sender message) source in
      ((λ h. meaning.0 (check.0 h)), (λ h. check.1 (meaning.1 h)))
