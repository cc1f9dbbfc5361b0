-- ===== src/Backend/Playback/Started.antt =====
-- src/backend.rs: the item that remove_started_playback_queue_item takes out of the queue.
use link_ear.Prelude.{
  ◌≡◌, refl, sym, ap, ◌∙◌, inl, inr, Bool, true, false, Option, none, some, List, [], ◌∷◌, ◌++◌,
  arith, Option-cases, string_eq, nat_eq, bool_eq, option_eq, beq_refl, length, any,
}
use mathlib.Core.Option.{some-injective}
use link_ear.Core.Types.{QueueItem, PlaybackState, PlaybackTrack}
use link_ear.Music.State.{MusicState}
use link_ear.Music.Queue.{remove_at, append_queue_item}
use link_ear.Backend.Votes.{position}
use link_ear.Backend.Playback.{
  queue_item_matches_started_playback, remove_started_playback_queue_item,
  queue_item_from_playback_state, item_of,
}

position_append :
    (p : QueueItem → Bool) (xs : List QueueItem) (x : QueueItem)
    → any p xs ≡ false
    → p x ≡ true
    → (position p (xs ++ x ∷ []) ≡ some (length xs))
      × ((remove_at (xs ++ x ∷ []) (length xs)).0 ≡ xs)
position_append p [] x h k = (ground arith, refl)
position_append p (y ∷ ys) x h k =
    let (at, rest) = position_append p ys x (ground arith) k in
    (ground (arith, at), ap (◌∷◌ y) rest)

item_of_matches :
    (state : PlaybackState) (track : PlaybackTrack)
    → queue_item_matches_started_playback (item_of state track) state track.track_id ≡ true
unfolding queue_item_matches_started_playback
item_of_matches state track = elim (Option-cases state.track_requested_by) [
  | inl e ↦ rw (e, beq_refl track.track_id) (ground arith)
  | inr o ↦ rw (o.1, beq_refl track.track_id, beq_refl o.0) (ground arith)
]

item_made :
    (state : PlaybackState) (track : PlaybackTrack) (item : QueueItem)
    → state.track ≡ some track
    → queue_item_from_playback_state state ≡ some item
    → item ≡ item_of state track
unfolding queue_item_from_playback_state
item_made state track item playing made = some-injective item (item_of state track) (
    sym made
    ∙ ap (λ t. elim t as (λ x. Option QueueItem) [ none ↦ none | some u ↦ some (item_of state u) ])
        playing)

-- The item that is made of a playback state is the one that leaves the queue when this playback starts: where
-- no other item fits the playback, appending it and starting the playback gives the queue as it was.
pub remove_started-append :
    (m : MusicState) (state : PlaybackState) (item : QueueItem) (track : PlaybackTrack)
    → queue_item_from_playback_state state ≡ some item
    → state.track ≡ some track
    → any (λ i. queue_item_matches_started_playback i state track.track_id) m.queue ≡ false
    → remove_started_playback_queue_item (append_queue_item m item).0 state ≡ (m, true)
unfolding remove_started_playback_queue_item append_queue_item
remove_started-append m state item track made playing others =
    let p = λ (i : QueueItem). queue_item_matches_started_playback i state track.track_id in
    let same = item_made state track item playing made in
    let (at, rest) =
      position_append p m.queue item others (ap p same ∙ item_of_matches state track) in
    rw (playing, at) (ap (λ q. (record m { queue = q }, true)) rest)
