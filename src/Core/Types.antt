-- ===== src/Core/Types.antt =====
-- src/core.rs: chat, track, queue, playback and vote records. A u64, usize or u32 is a number, an
-- i64 an integer, an f32 its 32 bits; a PeerId is the text that `to_string` gives.
use link_ear.Prelude.{ℕ, String, Bool, Option, List}
use link_ear.Prelude.Int.{ℤ}
use link_ear.Prelude.HashMap.{HashMap}

-- libp2p's PeerId, by the text that it prints as.
abbrev pub PeerId : Type 0
PeerId = String

-- An f32 by its IEEE 754 bits.
abbrev pub F32 : Type 0
F32 = ℕ

-- 1.0f32.
abbrev pub one_f32 : F32
one_f32 = 0x3f80_0000

pub record ChatRecord : Type 0 where
  pub id : String
  pub peer_id : String
  pub joined_at : Option ℤ
  pub seq : ℕ
  pub causal_frontier : HashMap String ℕ
  pub author : String
  pub text : String
  pub sent_at : ℤ

pub record PlaybackByteRange : Type 0 where
  pub start : ℕ
  pub end_inclusive : ℕ

pub record PlaybackTrack : Type 0 where
  pub track_id : String
  pub title : String
  pub source_kind : String
  pub bvid : String
  pub part : ℕ
  pub duration_ms : ℕ
  pub audio_url : String
  pub referer : String
  pub media_init_range : Option PlaybackByteRange
  pub media_index_range : Option PlaybackByteRange

pub record QueueItem : Type 0 where
  pub item_id : String
  pub track : PlaybackTrack
  pub requested_by : String
  pub added_at_micros : ℤ

pub record QueueState : Type 0 where
  pub version : ℕ
  pub updated_at_micros : ℤ
  pub updated_by : String
  pub items : List QueueItem

pub record PlaybackState : Type 0 where
  pub session_id : String
  pub leader_peer_id : String
  pub track : Option PlaybackTrack
  pub track_requested_by : Option String
  pub state_version : ℕ
  pub issued_at_micros : ℤ
  pub playing : Bool
  pub position_ms : ℕ
  pub anchor_time_micros : ℤ
  pub rate : F32

pub data VoteAction : Type 0 where
  pause resume skip : VoteAction
  seek : (position_ms : ℕ) → VoteAction
  remove : (item_id : String) → VoteAction
  move : (item_id : String) → (to_index : ℕ) → VoteAction

pub record VoteProposal : Type 0 where
  pub vote_id : String
  pub proposer : String
  pub action : VoteAction
  pub queue_version : ℕ
  pub playback_session_id : Option String
  pub created_at_micros : ℤ

pub data PlaybackBufferOperationKind : Type 0 where
  start seek resume : PlaybackBufferOperationKind

pub data PlaybackBufferStatusKind : Type 0 where
  ready buffering failed : PlaybackBufferStatusKind

pub record PlaybackBufferView : Type 0 where
  pub operation_id : String
  pub session_id : String
  pub track_id : String
  pub kind : PlaybackBufferOperationKind
  pub local_status : PlaybackBufferStatusKind
  pub ready : ℕ
  pub buffering : ℕ
  pub failed : ℕ
  pub threshold : ℕ
  pub eligible_peers : ℕ
  pub position_ms : ℕ
  pub buffered_until_ms : Option ℕ
  pub error : Option String

pub record VoteView : Type 0 where
  pub vote_id : String
  pub proposer : String
  pub action_label : String
  pub approvals : ℕ
  pub rejections : ℕ
  pub threshold : ℕ
  pub eligible_peers : ℕ
  pub pending : ℕ
  pub local_vote : Option Bool

pub record PeerConnectionView : Type 0 where
  pub peer_id : String
  pub kind : String
  pub route : String
  pub direct_connections : ℕ
  pub relayed_connections : ℕ
  pub direct_address_count : ℕ
  pub chat_subscribed : Bool
  pub direct_promotion_attempts : ℕ
  pub direct_promotion_failures : ℕ
  pub direct_promotion_in_flight : Bool
  pub direct_promotion_suspended : Bool

pub data PlaybackCacheStatus : Type 0 where
  preparing : PlaybackCacheStatus
  ready : PlaybackCacheStatus
  buffering : PlaybackCacheStatus
  failed : PlaybackCacheStatus

pub record PlaybackCacheView : Type 0 where
  pub session_id : String
  pub track_id : String
  pub status : PlaybackCacheStatus
  pub buffered_from_ms : ℕ
  pub buffered_until_ms : ℕ
  pub duration_ms : ℕ
  pub error : Option String
