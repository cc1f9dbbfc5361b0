-- ===== src/Player/Stream/Chunks.antt =====
-- src/player.rs: the chunks in which a stream is fetched divide its bytes.
use link_ear.Prelude.{
  ℕ, ◌+◌, ◌-◌, ◌≤◌, ◌<◌, min, ◌≡◌, refl, ap, ◌∙◌, ◌↔◌, true, some, arith, string_eq, nat_eq,
  bool_eq, option_eq,
}
use link_ear.Prelude.Words.{u64_max}
use link_ear.MediaCache
use link_ear.MediaCache.{ByteRange, stream_chunk_bytes, contains, len, IsRange}
use link_ear.Player.Stream.{
  align_stream_offset, stream_fetch_range, normalized_stream_request_offset,
}

-- The chunk of an offset that lies before the end.
abbrev pub chunk_of : ℕ → ℕ → ByteRange
chunk_of offset total = record {
  start = align_stream_offset offset;
  end_inclusive = min (align_stream_offset offset + stream_chunk_bytes - 1) (total - 1);
}

pub fetch_range_lem :
    (start total : ℕ)
    → 0 < total
    → total ≤ u64_max
    → stream_fetch_range start total ≡ some (chunk_of (min start (total - 1)) total)
unfolding stream_fetch_range align_stream_offset MediaCache.new
fetch_range_lem start total p u = ground arith

-- A request for an offset is answered for its chunk.
pub normalized-fetch :
    (offset total : ℕ)
    → 0 < total
    → total ≤ u64_max
    → stream_fetch_range (normalized_stream_request_offset offset (some total)) total
      ≡ stream_fetch_range offset total
unfolding stream_fetch_range align_stream_offset normalized_stream_request_offset
normalized-fetch offset total p u = ground arith

pub chunk_of-contains :
    (offset other total : ℕ)
    → offset < total
    → (contains (chunk_of offset total) other ≡ true)
      ↔ ((other < total) × (align_stream_offset other ≡ align_stream_offset offset))
unfolding align_stream_offset
chunk_of-contains offset other total h = ground arith

pub chunk_of-IsRange :
    (offset total : ℕ) → offset < total → total ≤ u64_max → IsRange (chunk_of offset total)
unfolding align_stream_offset
chunk_of-IsRange offset total h u = ground arith

-- The chunk that is fetched for an offset before the end holds the offset, ends before the end of the
-- file, is no longer than a chunk, and holds exactly the offsets of the file that are aligned as it is:
-- two chunks are the same or have no byte in common.
pub stream_fetch_range-chunk :
    (offset total : ℕ)
    → offset < total
    → total ≤ u64_max
    → (range : ByteRange) × (stream_fetch_range offset total ≡ some range)
      × IsRange range
      × (contains range offset ≡ true)
      × (len range ≤ stream_chunk_bytes)
      × ((other : ℕ)
          → (contains range other ≡ true)
            ↔ ((other < total) × (align_stream_offset other ≡ align_stream_offset offset)))
unfolding len align_stream_offset
stream_fetch_range-chunk offset total h u = (
  chunk_of offset total,
  fetch_range_lem offset total (omega arith) u ∙ ap (λ o. some (chunk_of o total)) (omega arith),
  chunk_of-IsRange offset total h u,
  (chunk_of-contains offset offset total h).1 (h, refl),
  ground arith,
  (λ other. chunk_of-contains offset other total h),
)
