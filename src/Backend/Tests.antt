-- ===== src/Backend/Tests.antt =====
-- src/backend.rs: two peers that chat, a queue of two items and a peer that is alone.
use link_ear.Prelude.{
  ℕ, String, ◌≡◌, refl, ◌↔◌, true, false, not, Option, none, some, List, [], ◌∷◌, arith,
  if◌then◌else◌, ◌==◌, ◌!=◌, string_eq, nat_eq, bool_eq, option_eq, length,
}
use mathlib.Core.List.{Permᴰ}
use link_ear.Prelude.HashMap
use link_ear.Prelude.HashSet.{HashSet, contains}
use link_ear.Prelude.Text.{concat, display_ℤ}
use link_ear.Prelude.Int.{ℤ, pos}
use link_ear.Prelude.Perm.{here}
use link_ear.Core.Types.{ChatRecord, QueueItem, PeerId}
use link_ear.Core.Wire.{WireMessage}
use link_ear.Core.Samples.{item, other_item, playing, track}
use link_ear.Music.State.{MusicState, new}
use link_ear.Music.Queue.{append_queue_item}
use link_ear.Backend.History.{
  sort_history_causally, insert_record, history_frontier, chat_depends_on, chat_record_actor_key,
  chat_actor_key,
}
use link_ear.Backend.History.Kept.{sort_history_causally-Permᴰ}
use link_ear.Backend.History.Causal.{sort_history_causally-IsCausal, IsCausal}
use link_ear.Backend.History.Log.{insert_record-IsLog, IsLog, has_id}
use link_ear.Backend.History.Frontier.{history_frontier-chat_depends_on}
use link_ear.Prelude.HashSet
use link_ear.Prelude.HashMap.{HashMap}
use link_ear.Prelude.{length, ltb, if◌then◌else◌}
use link_ear.Backend.History.{receive_records}
use link_ear.Backend.History.Converge.{receive_records_converge}
use link_ear.Core.Types.{PlaybackTrack}
use link_ear.Backend.Sync.{exchange, exchange_lem, should_request_history}
use link_ear.Backend.Source.{
  validate_wire_source, validate_wire_source_lem, parse_peer_id, claimed_sender, ok,
}
use link_ear.Backend.Recovery.{
  Call, lost_all_peers, tick, found_peer, run, default, pop_due_discovery, discovery_due,
}
use link_ear.Backend.Playback.{
  remove_started_playback_queue_item, queue_item_from_playback_state,
  queue_item_matches_started_playback,
}
use link_ear.Backend.Playback.Started.{remove_started-append}

abbrev first_record : ChatRecord
first_record = record {
  id = "m1";
  peer_id = "alice";
  joined_at = some (pos 7);
  seq = 1;
  causal_frontier = HashMap.new;
  author = "Alice";
  text = "hello";
  sent_at = pos 9_000_000_000_000_000;
}

-- Its clock is behind.
abbrev answer_record : ChatRecord
answer_record = record {
  id = "m2";
  peer_id = "bob";
  joined_at = none;
  seq = 1;
  causal_frontier = ("alice@7", 1) ∷ [];
  author = "Bob";
  text = "hi";
  sent_at = pos 8_000_000_000_000_000;
}

abbrev came_in : List ChatRecord
came_in = answer_record ∷ first_record ∷ []

abbrev rank : ChatRecord → ℕ
rank r = if r.id == "m1" then 0 else 1

sorts_answer_last : sort_history_causally came_in ≡ first_record ∷ answer_record ∷ []
unfolding sort_history_causally chat_depends_on chat_actor_key concat display_ℤ HashMap.get
sorts_answer_last = refl

sort_history_causally-Permᴰ_example : Permᴰ (sort_history_causally came_in) came_in
sort_history_causally-Permᴰ_example = sort_history_causally-Permᴰ came_in

sort_history_causally-IsCausal_example : IsCausal (sort_history_causally came_in)
unfolding chat_depends_on chat_actor_key concat display_ℤ HashMap.get
sort_history_causally-IsCausal_example = sort_history_causally-IsCausal rank came_in refl

receive_records_converge_example :
    (receive_records [] HashSet.new came_in).0
    ≡ (receive_records [] HashSet.new (first_record ∷ answer_record ∷ [])).0
receive_records_converge_example =
    receive_records_converge came_in (first_record ∷ answer_record ∷ []) (Permᴰ.swap refl refl)
      (refl, (refl, tt)) (omega arith)

-- Each peer has one record, and the second is the newer.
abbrev asked_before : HashMap String ℕ
asked_before = ("carol", 3) ∷ []

exchange_lem_example :
    exchange (answer_record ∷ []) (first_record ∷ []) asked_before "alice" "bob" 4 ≡ (
      if ltb (length (answer_record ∷ [])) (length (first_record ∷ []))
      then some (first_record ∷ [])
      else none)
unfolding should_request_history HashMap.get
exchange_lem_example =
    exchange_lem (answer_record ∷ []) (first_record ∷ []) asked_before "alice" "bob" 4 refl refl

abbrev one_seen : HashSet String
one_seen = "m1" ∷ []

insert_record-IsLog_example :
    let (history', seen', is_new) = insert_record (first_record ∷ []) one_seen answer_record in
    IsLog history' seen'
    × (is_new ≡ not (has_id answer_record.id (first_record ∷ [])))
    × (is_new ≡ false → (history' ≡ first_record ∷ []) × (seen' ≡ one_seen))
unfolding contains
insert_record-IsLog_example =
    insert_record-IsLog (first_record ∷ []) one_seen answer_record
      (omega arith, (refl, tt), (λ id. refl))

history_frontier-chat_depends_on_example :
    chat_depends_on answer_record first_record ≡ (answer_record.id != first_record.id)
unfolding history_frontier chat_record_actor_key HashMap.get HashMap.insert chat_actor_key concat
    display_ℤ
history_frontier-chat_depends_on_example =
    history_frontier-chat_depends_on (first_record ∷ []) answer_record first_record refl (here refl)
      refl

-- Any text is a peer id.
abbrev parse : String → Option PeerId
parse text = some text

abbrev ballot : WireMessage
ballot = WireMessage.vote_ballot "v1" "alice" true 1

validate_wire_source_lem_example : (validate_wire_source parse ballot "alice" ≡ ok) ↔ (
    (value : String)
    → claimed_sender ballot ≡ some value
    → parse_peer_id parse value ≡ some "alice")
validate_wire_source_lem_example = validate_wire_source_lem parse ballot "alice"

abbrev calls : List (ℕ × Call)
calls = (5, lost_all_peers) ∷ (1_000_000_000, tick) ∷ []

still_active : (run default 0 calls).0.active ≡ true
unfolding link_ear.Backend.Recovery.start pop_due_discovery
still_active = refl

abbrev two_items : MusicState
two_items = record (new) { queue = item ∷ other_item ∷ [] }

abbrev voted_at : ℤ
voted_at = pos 90

abbrev made_item : QueueItem
made_item = record {
  item_id = "playback-s1";
  track = track;
  requested_by = "alice";
  added_at_micros = pos 1000;
}

remove_started-append_example :
    remove_started_playback_queue_item (append_queue_item new made_item).0 playing ≡ (new, true)
unfolding queue_item_from_playback_state queue_item_matches_started_playback concat new
remove_started-append_example = remove_started-append new playing made_item track refl refl refl

abbrev not_found : String → ℕ → Option PlaybackTrack
not_found bvid index = none

abbrev found : String → ℕ → Option PlaybackTrack
found bvid index = some (record (track) { audio_url = "https://example.org/b" })

abbrev found_track : PlaybackTrack
found_track = record (track) { audio_url = "https://example.org/b" }

abbrev other_title : PlaybackTrack
other_title = record (track) { title = "the song" }
