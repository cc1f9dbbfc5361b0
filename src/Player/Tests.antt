-- ===== src/Player/Tests.antt =====
-- src/player.rs: a stream of ten bytes.
mod Sound
mod Control
use link_ear.Prelude.{
  ℕ, ◌+◌, ◌*◌, ◌%◌, ◌≤◌, ◌<◌, ◌≡◌, refl, ◌↔◌, ◌⊎◌, true, false, none, some, List, [], ◌∷◌, arith,
  string_eq, nat_eq, bool_eq, option_eq,
}
use link_ear.MediaCache.{ByteRange, contains, IsRange, len, stream_chunk_bytes}
use link_ear.MediaCache.Index.Normal.{cached}
use link_ear.Player.Stream.{align_stream_offset, stream_fetch_range}
use link_ear.Player.Stream.Chunks.{stream_fetch_range-chunk}
use link_ear.Player.Bytes.{
  StreamingBytesState, new, set_total, append, request_offset, read, waiting, read_at,
}
use link_ear.Player.Bytes.Held.{bytes_from, bytes_at, IsWhole, IsHeld}
use link_ear.Player.Bytes.Steps.{
  Reachable, initial, next, totals, appends, requests, reachable-IsHeld,
}
use link_ear.Player.Bytes.Content.{read_at-content}
use link_ear.Player.Bytes.Served.{IsServed, waiting-IsServed}
use link_ear.Player.Media.{read_each, read_each-bytes}
use link_ear.Player.Download.{target_window, resume_window, download_step}
use link_ear.Player.Download.Progress.{Progresses, download_step-progress}

abbrev file : ℕ → ℕ
file offset = offset * 7 % 256

abbrev whole : ByteRange
whole = record { start = 0; end_inclusive = 9 }

-- No byte is in memory yet.
abbrev empty : StreamingBytesState
empty = record {
  chunks = [];
  total_bytes = some 10;
  canceled = false;
  error = none;
  ranges = record { ranges = [] };
  pinned_ranges = [];
  requested_offsets = [];
}

abbrev full : StreamingBytesState
full = record empty {
  chunks = record { range = whole; bytes = bytes_from file 0 10 } ∷ [];
  ranges = record { ranges = whole ∷ [] };
}

empty-IsHeld : IsHeld file 10 empty
empty-IsHeld = (tt, tt, (λ offset. refl), (tt, omega arith), refl)

whole-IsWhole : IsWhole 10 whole
unfolding align_stream_offset
whole-IsWhole = ((omega arith, omega arith), omega arith, (λ a b h before aligned. ground arith))

full-IsHeld : IsHeld file 10 full
unfolding len
full-IsHeld = (
  ((whole-IsWhole, refl), tt),
  (omega arith, (omega arith, omega arith), tt),
  (λ offset. refl),
  (tt, omega arith),
  refl,
)

stream_fetch_range-chunk_example :
    (range : ByteRange) × (stream_fetch_range 3000000 5000000 ≡ some range)
    × IsRange range
    × (contains range 3000000 ≡ true)
    × (len range ≤ stream_chunk_bytes)
    × ((other : ℕ)
        → (contains range other ≡ true)
          ↔ ((other < 5000000) × (align_stream_offset other ≡ align_stream_offset 3000000)))
stream_fetch_range-chunk_example =
    stream_fetch_range-chunk 3000000 5000000 (omega arith) (omega arith)

appended :
    Reachable file 10
      (append (request_offset (set_total new (some 10)) 4) (bytes_at file whole) whole)
appended = next (next (next initial totals) (requests 4)) (appends whole whole-IsWhole)

reachable-IsHeld_example :
    IsHeld file 10 (append (request_offset (set_total new (some 10)) 4) (bytes_at file whole) whole)
reachable-IsHeld_example = reachable-IsHeld file 10 appended

read_at-content_example :
    ((cached full.ranges 3 ≡ false) × ((read_at full 3 4 false).1 ≡ waiting))
    ⊎ ((cached full.ranges 3 ≡ true)
        × ((count : ℕ) × (read_at full 3 4 false ≡ (full, read (bytes_from file 3 count)))
            × (0 < count)
            × (count ≤ 4)
            × (3 + count ≤ 10)))
read_at-content_example =
    read_at-content file 10 full 3 4 false full-IsHeld
      (omega arith, refl, refl, refl, refl, omega arith)

waiting-IsServed_example : IsServed file 10 3 4 (read_at empty 3 4 false).0
waiting-IsServed_example =
    waiting-IsServed file 10 empty 3 4 (omega arith) empty-IsHeld
      (omega arith, refl, refl, refl, refl, omega arith) refl
      λ full_queue. absurd (omega (arith, full_queue.1))

abbrev two_reads : List (StreamingBytesState × ℕ)
two_reads = (full, 4) ∷ (empty, 3) ∷ (full, 20) ∷ []

read_each-bytes_example :
    (count : ℕ) × ((read_each (record { cursor = 2 }) two_reads).1 ≡ bytes_from file 2 count)
    × ((read_each (record { cursor = 2 }) two_reads).0.cursor ≡ 2 + count)
    × ((read_each (record { cursor = 2 }) two_reads).0.cursor ≤ 10)
read_each-bytes_example =
    read_each-bytes file 10 (record { cursor = 2 }) two_reads (omega arith) (omega arith)
      (
        (full-IsHeld, omega arith, refl, refl, refl),
        (
          (empty-IsHeld, omega arith, refl, refl, refl),
          ((full-IsHeld, omega arith, refl, refl, refl), tt),
        ),
      )

download_step-progress_example :
    IsHeld file 10 (download_step empty false 5 100 10).0
    × Progresses file 10
        (download_step empty false 5 100 10).0
        (target_window 5 100 10)
        (resume_window 5 100 10)
        false
        (download_step empty false 5 100 10).1
        (download_step empty false 5 100 10).2
download_step-progress_example =
    download_step-progress file 10 empty false 5 100 (omega arith) (omega arith) empty-IsHeld refl
