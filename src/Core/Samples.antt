-- ===== src/Core/Samples.antt =====
-- Sample tracks, states and proposals for the tests.
use link_ear.Prelude.{◌∷◌, [], some, none, true}
use link_ear.Prelude.Int.{pos}
use link_ear.Core.Types.{
  one_f32, PlaybackTrack, PlaybackState, QueueItem, QueueState, VoteProposal, pause, remove,
}

abbrev pub track : PlaybackTrack
track = record {
  track_id = "BV1:1";
  title = "song";
  source_kind = "bilibili";
  bvid = "BV1";
  part = 1;
  duration_ms = 180000;
  audio_url = "https://example.org/a";
  referer = "https://example.org";
  media_init_range = none;
  media_index_range = none;
}

abbrev pub item : QueueItem
item = record { item_id = "i1"; track = track; requested_by = "alice"; added_at_micros = pos 5 }

abbrev pub other_item : QueueItem
other_item = record { item_id = "i2"; track = track; requested_by = "bob"; added_at_micros = pos 6 }

abbrev pub playing : PlaybackState
playing = record {
  session_id = "s1";
  leader_peer_id = "alice";
  track = some track;
  track_requested_by = some "alice";
  state_version = 3;
  issued_at_micros = pos 1000;
  playing = true;
  position_ms = 500;
  anchor_time_micros = pos 2000;
  rate = one_f32;
}

abbrev pub later_playing : PlaybackState
later_playing = record (playing) { issued_at_micros = pos 1500; state_version = 4 }

abbrev pub last_playing : PlaybackState
last_playing = record (playing) {
  leader_peer_id = "bob";
  issued_at_micros = pos 1500;
  state_version = 4;
}

abbrev pub pause_proposal : VoteProposal
pause_proposal = record {
  vote_id = "v1";
  proposer = "alice";
  action = pause;
  queue_version = 2;
  playback_session_id = some "s1";
  created_at_micros = pos 100;
}

abbrev pub remove_proposal : VoteProposal
remove_proposal = record (pause_proposal) {
  action = remove "i1";
  queue_version = 7;
  playback_session_id = none;
}

abbrev pub old_queue : QueueState
old_queue = record {
  version = 3;
  updated_at_micros = pos 40;
  updated_by = "bob";
  items = item ∷ [];
}

abbrev pub new_queue : QueueState
new_queue = record {
  version = 4;
  updated_at_micros = pos 40;
  updated_by = "alice";
  items = other_item ∷ item ∷ [];
}
