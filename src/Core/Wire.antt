-- ===== src/Core/Wire.antt =====
-- src/core.rs: the messages of the room's gossip topic. The field names are those of the source; each
-- message ends with the nonce that keeps two publications distinct.
use link_ear.Prelude.{ℕ, String, Bool, Option, List}
use link_ear.Prelude.Int.{ℤ}
use link_ear.Prelude.HashMap.{HashMap}
use link_ear.Core.Types.{
  ChatRecord, PlaybackState, QueueState, VoteProposal, PlaybackBufferOperationKind,
  PlaybackBufferStatusKind,
}

pub data WireMessage : Type 0 where
  chat :
      (id : Option String) (peer_id : String) (joined_at : Option ℤ) (seq : ℕ)
      (causal_frontier : HashMap String ℕ) (name text : String) (sent_at : ℤ)
      → WireMessage
  name_claim : (peer_id name : String) (joined_at : Option ℤ) (nonce : ℕ) → WireMessage
  history_summary : (peer_id : String) (count : ℕ) (newest_at : Option ℤ) (nonce : ℕ) → WireMessage
  history_request : (requester target : String) (known_count nonce : ℕ) → WireMessage
  history_response : (target : Option String) (messages : List ChatRecord) (nonce : ℕ) → WireMessage
  playback_state : (state : PlaybackState) (nonce : ℕ) → WireMessage
  playback_prepare :
      (state : PlaybackState) (expected_peers : List String) (nonce : ℕ) → WireMessage
  playback_ready : (session_id peer_id : String) (nonce : ℕ) → WireMessage
  playback_cancel : (session_id leader_peer_id reason : String) (nonce : ℕ) → WireMessage
  playback_buffer_prepare :
      (operation_id session_id track_id : String) (position_ms : ℕ)
      (kind : PlaybackBufferOperationKind) (expected_peers : List String) (leader_peer_id : String)
      (nonce : ℕ)
      → WireMessage
  playback_buffer_status :
      (operation_id session_id peer_id : String) (status : PlaybackBufferStatusKind)
      (buffered_until_ms : Option ℕ) (error : Option String) (nonce : ℕ)
      → WireMessage
  playback_buffer_health :
      (session_id peer_id : String) (status : PlaybackBufferStatusKind)
      (buffered_until_ms : Option ℕ) (nonce : ℕ)
      → WireMessage
  playback_buffer_cancel :
      (operation_id session_id leader_peer_id reason : String) (nonce : ℕ) → WireMessage
  queue_state : (state : QueueState) (nonce : ℕ) → WireMessage
  queue_summary :
      (peer_id : String) (version : ℕ) (updated_at_micros : ℤ) (item_count nonce : ℕ) → WireMessage
  queue_request :
      (requester target : String) (known_version : ℕ) (known_updated_at_micros : ℤ) (nonce : ℕ)
      → WireMessage
  queue_response : (target : String) (state : QueueState) (nonce : ℕ) → WireMessage
  vote_proposal : (proposal : VoteProposal) (nonce : ℕ) → WireMessage
  vote_ballot : (vote_id peer_id : String) (approve : Bool) (nonce : ℕ) → WireMessage
