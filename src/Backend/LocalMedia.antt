-- ===== src/Backend/LocalMedia.antt =====
-- src/backend.rs: the media that a peer has found for the tracks of the room.
use link_ear.Prelude.{
  ℕ, ◌-◌, String, ◌≡◌, refl, sym, ap, ◌∙◌, not, ◌&&◌, Option, none, some, [], ◌∷◌, ltb,
  if◌then◌else◌, ◌==◌, string_eq, nat_eq, bool_eq, option_eq,
}
use mathlib.Core.Option.{some-injective}
use link_ear.Prelude.HashMap
use link_ear.Prelude.HashMap.{HashMap, get-insert_self}
use link_ear.Prelude.Text.{concat, display}
use link_ear.Core.Types.{PlaybackTrack}

pub record LocalMediaResolver : Type 0 where
  pub bilibili_tracks : HashMap String PlaybackTrack

abbrev pub default : LocalMediaResolver
default = record { bilibili_tracks = HashMap.new }

unfoldable pub local_media_key : PlaybackTrack → Option String
local_media_key track =
    if (track.source_kind == "bilibili") && (not (track.bvid == "") && ltb 0 track.part)
    then some (concat ("bilibili:" ∷ track.bvid ∷ ":" ∷ display track.part ∷ []))
    else none

unfoldable pub merge_local_media : PlaybackTrack → PlaybackTrack → PlaybackTrack
merge_local_media shared local = record shared {
  audio_url = local.audio_url;
  referer = local.referer;
  media_init_range = local.media_init_range;
  media_index_range = local.media_index_range;
}

unfoldable pub remember : LocalMediaResolver → PlaybackTrack → LocalMediaResolver
unfolding local_media_key HashMap.insert
remember r track = elim (local_media_key track) [
  | none ↦ r
  | some key ↦ record { bilibili_tracks = HashMap.insert r.bilibili_tracks key track }
]

unfoldable pub invalidate : LocalMediaResolver → PlaybackTrack → LocalMediaResolver
unfolding local_media_key HashMap.remove
invalidate r track = elim (local_media_key track) [
  | none ↦ r
  | some key ↦ record { bilibili_tracks = HashMap.remove r.bilibili_tracks key }
]

abbrev pub stored :
    LocalMediaResolver
    → PlaybackTrack
    → String
    → Option PlaybackTrack
    → LocalMediaResolver × Option PlaybackTrack
stored r track key none = (r, none)
stored r track key (some resolved) = (
  record { bilibili_tracks = HashMap.insert r.bilibili_tracks key resolved },
  some (merge_local_media track resolved),
)

-- `resolve` is what `bilibili::resolve_track` answers for a video and the index of a part; `none` is an error.
module _ (resolve : String → ℕ → Option PlaybackTrack) where
  abbrev pub kept_or_resolved :
      LocalMediaResolver
      → PlaybackTrack
      → String
      → Option PlaybackTrack
      → LocalMediaResolver × Option PlaybackTrack
  kept_or_resolved r track key (some local) = (r, some (merge_local_media track local))
  kept_or_resolved r track key none = stored r track key (resolve track.bvid (track.part - 1))

  abbrev pub playable_for :
      LocalMediaResolver → PlaybackTrack → Option String → LocalMediaResolver × Option PlaybackTrack
  playable_for r track none = (r, some track)
  playable_for r track (some key) = kept_or_resolved r track key (HashMap.get r.bilibili_tracks key)

  -- The playable track, or `none` for an error.
  unfoldable pub playable_track :
      LocalMediaResolver → PlaybackTrack → LocalMediaResolver × Option PlaybackTrack
  unfolding local_media_key merge_local_media HashMap.get HashMap.insert
  playable_track r track = playable_for r track (local_media_key track)

abbrev Serves :
    LocalMediaResolver × Option PlaybackTrack → PlaybackTrack → String → PlaybackTrack → Type 0
Serves answer track key p =
    (local : PlaybackTrack) × (HashMap.get answer.0.bilibili_tracks key ≡ some local)
    × (merge_local_media track local ≡ p)

stored-Serves :
    (r : LocalMediaResolver) (track : PlaybackTrack) (key : String) (found : Option PlaybackTrack)
    (p : PlaybackTrack)
    → (stored r track key found).1 ≡ some p
    → Serves (stored r track key found) track key p
stored-Serves r track key none p h = absurd (cc)
stored-Serves r track key (some resolved) p h = (
  resolved,
  get-insert_self r.bilibili_tracks key resolved,
  some-injective (merge_local_media track resolved) p h,
)

-- What is found for a track stays.
kept-Serves :
    (resolve : String → ℕ → Option PlaybackTrack) (r : LocalMediaResolver) (track : PlaybackTrack)
    (key : String) (found : Option PlaybackTrack) (p : PlaybackTrack)
    → HashMap.get r.bilibili_tracks key ≡ found
    → (kept_or_resolved resolve r track key found).1 ≡ some p
    → Serves (kept_or_resolved resolve r track key found) track key p
kept-Serves resolve r track key (some local) p e h =
    (local, e, some-injective (merge_local_media track local) p h)
kept-Serves resolve r track key none p e h =
    stored-Serves r track key (resolve track.bvid (track.part - 1)) p h

-- Once media was found for a track, each track of the same part of the same video plays with the same media,
-- without another call of the service, which may answer what it will.
pub playable_track_again :
    (resolve later : String → ℕ → Option PlaybackTrack) (r : LocalMediaResolver)
    (track other p : PlaybackTrack) (key : String)
    → local_media_key track ≡ some key
    → local_media_key other ≡ some key
    → (playable_track resolve r track).1 ≡ some p
    → let r' = (playable_track resolve r track).0 in
      playable_track later r' other ≡ (r', some (merge_local_media other p))
unfolding playable_track merge_local_media
playable_track_again resolve later r track other p key k l h =
    let first = ap (playable_for resolve r track) k in
    let (local, e, m) =
      kept-Serves resolve r track key (HashMap.get r.bilibili_tracks key) p refl
        (sym (ap (λ a. a.1) first) ∙ h) in
    let r' = (kept_or_resolved resolve r track key (HashMap.get r.bilibili_tracks key)).0 in
    ap (λ a. playable_track later a.0 other) first
    ∙ ap (playable_for later r' other) l
    ∙ ap (kept_or_resolved later r' other key) e
    ∙ ap (λ t. (r', some (merge_local_media other t))) m
    ∙ sym (ap (λ a. (a.0, some (merge_local_media other p))) first)
