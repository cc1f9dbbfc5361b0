-- ===== src/Player/Download/Progress.antt =====
-- src/player.rs: the download loop makes progress until the window is filled.
use link_ear.Prelude.{
  ℕ, ◌-◌, ◌≤◌, ◌<◌, min, ◌≡◌, refl, ap, ◌∙◌, ◌⊎◌, inl, inr, Bool, true, false, ◌&&◌, Option, none,
  some, List, [], ◌∷◌, arith, Bool-cases, string_eq, nat_eq, bool_eq, option_eq,
}
use link_ear.Prelude.{if_elim}
use link_ear.Prelude.Words.{u64_max}
use link_ear.MediaCache.{ByteRange, contains, IsRange}
use link_ear.MediaCache.Index
use link_ear.MediaCache.Index.{RangeIndex}
use link_ear.MediaCache.Index.Normal.{cached}
use link_ear.MediaCache.Index.Bytes.{covers_iff}
use link_ear.Player.Stream.{
  stream_buffer_target_ms, stream_fetch_range, normalized_stream_request_offset,
  align_stream_offset,
}
use link_ear.Player.Stream.Chunks.{chunk_of, chunk_of-contains, chunk_of-IsRange, fetch_range_lem}
use link_ear.Player.Bytes.{
  StreamingBytesState, take_requested_offset, take_from, covers, retain_streaming_byte_window,
}
use link_ear.Player.Bytes.Queue.{take_from_lem}
use link_ear.Player.Bytes.Held.{IsHeld}
use link_ear.Player.Bytes.Missing.{first_missing_offset-first}
use link_ear.Player.Download.{
  Next, idle, fetching, fetch_next, fetch_from, chosen, settled, target_window, resume_window,
  download_step,
}
use link_ear.Player.Download.Rounds.{window-IsRange, settled-IsHeld, retained-IsHeld}

take_from-before :
    (index : RangeIndex) (total : ℕ) (queue : List ℕ) (offset : ℕ)
    → 0 < total
    → (take_from index total queue).1 ≡ some offset
    → offset < total
unfolding normalized_stream_request_offset align_stream_offset
take_from-before index total [] offset p h = cc
take_from-before index total (x ∷ xs) offset p h =
    ground (arith, take_from-before index total xs offset p)

-- A range is fetched that has an offset which is not in memory.
abbrev pub Fetches : ℕ → StreamingBytesState → ℕ → Next → Type 0
Fetches total s offset next =
    (next ≡ fetching (chunk_of offset total))
    × (offset < total)
    × (cached s.ranges offset ≡ false)
    × (covers s (chunk_of offset total) ≡ false)

module _ (file : ℕ → ℕ) (total : ℕ) where
  not_covered :
      (s : StreamingBytesState) (range : ByteRange) (offset : ℕ)
      → IsHeld file total s
      → IsRange range
      → contains range offset ≡ true
      → cached s.ranges offset ≡ false
      → covers s range ≡ false
  unfolding covers
  not_covered s range offset h v here absent = elim (Bool-cases (Index.covers s.ranges range)) [
    | inl held ↦ absurd (cc ((covers_iff s.ranges range h.1 v).0 held offset here))
    | inr e ↦ e
  ]

  fetch_from-Fetches :
      (s : StreamingBytesState) (offset : ℕ)
      → total ≤ u64_max
      → IsHeld file total s
      → offset < total
      → cached s.ranges offset ≡ false
      → Fetches total s offset (fetch_from s offset total)
  fetch_from-Fetches s offset u h before absent =
      let range = chunk_of offset total in
      let valid = chunk_of-IsRange offset total before u in
      let here = (chunk_of-contains offset offset total before).1 (before, refl) in
      let missing = not_covered s range offset h valid here absent in
      let clamped : min (min offset (total - 1)) (total - 1) ≡ offset = omega arith in
      let found : stream_fetch_range (min offset (total - 1)) total ≡ some range =
        fetch_range_lem (min offset (total - 1)) total (omega arith) u
        ∙ ap (λ o. some (chunk_of o total)) clamped in
      (ap (fetch_next s) found ∙ rw missing refl, before, absent, missing)

  -- What an iteration comes to.
  abbrev pub Progresses : StreamingBytesState → ByteRange → ByteRange → Bool → Bool → Next → Type 0
  Progresses s target resume was_paused paused next =
      ((next ≡ idle)
        × (((covers s target ≡ true) × (paused ≡ true))
            ⊎ ((covers s resume ≡ true) × (was_paused ≡ true))))
      ⊎ ((paused ≡ false) × ((offset : ℕ) × Fetches total s offset next))

  chosen-Progresses :
      (s : StreamingBytesState) (requested : Option ℕ) (was_paused : Bool)
      (target resume : ByteRange)
      → total ≤ u64_max
      → IsHeld file total s
      → IsRange target
      → target.end_inclusive < total
      → ((offset : ℕ)
          → requested ≡ some offset
          → (offset < total) × (cached s.ranges offset ≡ false))
      → let (paused, next) = chosen s requested was_paused target resume total in
        Progresses s target resume was_paused paused next
  unfolding covers
  chosen-Progresses s (some requested) was_paused target resume u h v w asked =
      let (before, absent) = asked requested refl in
      inr (refl, (requested, fetch_from-Fetches s requested u h before absent))
  chosen-Progresses s none was_paused target resume u h v w asked =
      elim (Bool-cases (was_paused && covers s resume)) [
        | inl rests ↦ rw rests (inl (refl, inr (ground arith, ground arith)))
        | inr goes_on ↦ elim (Bool-cases (covers s target)) [
          | inl full ↦ rw goes_on (rw full (inl (refl, inl (refl, refl))))
          | inr wanting ↦ elim (first_missing_offset-first s target h.1 v (omega arith)) [
            | inl (e, held) ↦ absurd (cc ((covers_iff s.ranges target h.1 v).1 held))
            | inr (missing, e, here, absent, before) ↦ rw goes_on (
                rw wanting (
                  rw e (
                    inr (refl, (missing, fetch_from-Fetches s missing u h (ground arith) absent)))))
          ]
        ]
      ]

  settled-asked :
      (s : StreamingBytesState) (position_ms duration_ms offset : ℕ)
      → 0 < total
      → IsHeld file total
          (retain_streaming_byte_window s (min position_ms duration_ms) duration_ms total)
      → (settled s position_ms duration_ms total).1 ≡ some offset
      → (offset < total)
        × (cached (settled s position_ms duration_ms total).0.ranges offset ≡ false)
  unfolding take_requested_offset
  settled-asked s position_ms duration_ms offset p h e =
      let t = retain_streaming_byte_window s (min position_ms duration_ms) duration_ms total in
      let (kept, taken, empty) = take_from_lem t.ranges total t.requested_offsets h.3 in
      (take_from-before t.ranges total t.requested_offsets offset p e, taken offset e)

  -- An iteration of the loop, on a stream that is not canceled, of a file that is not empty, in a state that
  -- holds the file's bytes: it sleeps only when the window that is to
  -- be filled is in memory, or when it was paused and the resume window is; else it fetches, and is no
  -- longer paused, the chunk of an offset that is not in memory. It neither fails nor starts over.
  pub download_step-progress :
      (s : StreamingBytesState) (prefetch_paused : Bool) (position_ms duration_ms : ℕ)
      → 0 < total
      → total ≤ u64_max
      → IsHeld file total s
      → s.canceled ≡ false
      → let (t, paused, next) = download_step s prefetch_paused position_ms duration_ms total in
        IsHeld file total t
        × Progresses t
            (target_window position_ms duration_ms total)
            (resume_window position_ms duration_ms total)
            prefetch_paused
            paused
            next
  unfolding download_step
  download_step-progress s prefetch_paused position_ms duration_ms p u h running =
      let (t, requested) = settled s position_ms duration_ms total in
      let target = target_window position_ms duration_ms total in
      let resume = resume_window position_ms duration_ms total in
      let held = settled-IsHeld file total s position_ms duration_ms h in
      let (valid, before) =
        window-IsRange (min position_ms duration_ms) stream_buffer_target_ms duration_ms total p
          u in
      let asked = λ (offset : ℕ).
        settled-asked s position_ms duration_ms offset p
          (retained-IsHeld file total s (min position_ms duration_ms) duration_ms h) in
      let outcome : StreamingBytesState × Bool × Next → Type 0 =
        λ r. IsHeld file total r.0 × Progresses r.0 target resume prefetch_paused r.1 r.2 in
      if_elim outcome s.canceled (λ stop. absurd (ground arith))
        λ goes_on. (
          held,
          chosen-Progresses t requested prefetch_paused target resume u held valid before asked,
        )
