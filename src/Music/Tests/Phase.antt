-- ===== src/Music/Tests/Phase.antt =====
-- src/music_state.rs: a track that two peers prepare.
use link_ear.Prelude.{
  String, ◌≡◌, refl, ◌↔◌, true, none, some, [], ◌∷◌, is_some, string_eq, nat_eq, bool_eq, option_eq,
}
use link_ear.Prelude.Int.{ℤ, pos}
use link_ear.Prelude.Words.{Instant}
use link_ear.Prelude.HashSet.{HashSet, contains, is_subset}
use link_ear.Music.State.{MusicState, preparing, PreparingPlayback, is_leader, is_ready}
use link_ear.Music.Phase.{PlaybackStart, begin_playback_prepare, maybe_start_pending_playback}
use link_ear.Core.Samples.{playing, item, other_item}
use link_ear.Music.Phase.Start.{maybe_start_lem, prepared_track_starts, MayStart, Starts, ready_all}

abbrev two_peers : HashSet String
two_peers = "alice" ∷ "bob" ∷ []

abbrev prepared : PreparingPlayback
prepared = record {
  state = playing;
  expected_peers = two_peers;
  ready_peers = "bob" ∷ [];
  deadline = 9;
}

abbrev room : MusicState
room = record {
  queue = item ∷ other_item ∷ [];
  queue_version = 2;
  queue_updated_at = pos 30;
  playback_version = 3;
  active_vote = none;
  playback_phase = preparing prepared;
}

-- The deadline is not over, and one peer is not ready.
waits : (maybe_start_pending_playback room "alice" 8 (pos 50) 1000).1 ≡ none
unfolding maybe_start_pending_playback is_leader is_ready is_subset contains
waits = refl

maybe_start_lem_example :
    let (m', started) = maybe_start_pending_playback room "alice" 10 (pos 50) 1000 in
    ((is_some started ≡ true) ↔ MayStart room.playback_phase "alice" 10)
    × (started ≡ none → m' ≡ room)
    × ((start : PlaybackStart)
        → started ≡ some start
        → Starts room m' room.playback_phase start (pos 50)
          × ((later : Instant) (later_micros : ℤ)
              → (maybe_start_pending_playback m' "alice" later later_micros 1000).1 ≡ none))
maybe_start_lem_example = maybe_start_lem room "alice" 10 (pos 50) 1000

prepared_track_starts_example :
    let (prepared, begun) = begin_playback_prepare room item two_peers 20 "alice" (pos 40) in
    let heard =
      ready_all prepared begun.state.session_id "alice" ("bob" ∷ "carol" ∷ "alice" ∷ []) in
    is_some (maybe_start_pending_playback heard "alice" 10 (pos 50) 1000).1 ≡ true
unfolding is_subset contains
prepared_track_starts_example =
    prepared_track_starts room item two_peers 20 10 "alice" (pos 40) (pos 50) 1000
      ("bob" ∷ "carol" ∷ "alice" ∷ []) refl
