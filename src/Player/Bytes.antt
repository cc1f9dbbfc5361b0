-- ===== src/Player/Bytes.antt =====
-- src/player.rs: SharedBytes, the parts of a media file that are in memory. Its lock makes each method one
-- step on the state; the loop in which a reader waits is one attempt here, tried again after other steps.
pub mod Queue
pub mod Held
pub mod Steps
pub mod Content
pub mod Whole
pub mod Served
pub mod Missing
use link_ear.Prelude.{
  ℕ, ◌-◌, min, max, String, Bool, true, false, not, ◌&&◌, ◌||◌, Option, none, some, List, [], ◌∷◌,
  ◌++◌, ltb, leb, if◌then◌else◌, is_some_and, ◌==◌, ◌!=◌, string_eq, nat_eq, bool_eq, option_eq,
  length, take, drop, any, filter,
}
use link_ear.MediaCache.{ByteRange, contains}
use link_ear.MediaCache.Index
use link_ear.MediaCache.Index.{RangeIndex}
use link_ear.Player.Stream.{
  stream_max_pending_offsets, normalized_stream_request_offset, same_range, ranges_overlap,
  stream_byte_offset_for_position, stream_byte_range_for_window, stream_buffer_target_ms,
  stream_byte_retain_behind_bytes,
}
use link_ear.Prelude.Words.{saturating_add_u64}
use link_ear.MediaCache.{stream_chunk_bytes}

pub record StreamingByteChunk : Type 0 where
  pub range : ByteRange
  pub bytes : List ℕ

pub record StreamingBytesState : Type 0 where
  pub chunks : List StreamingByteChunk
  pub total_bytes : Option ℕ
  pub canceled : Bool
  pub error : Option String
  pub ranges : RangeIndex
  pub pinned_ranges : List ByteRange
  pub requested_offsets : List ℕ

unfoldable pub new : StreamingBytesState
unfolding Index.default
new = record {
  chunks = [];
  total_bytes = none;
  canceled = false;
  error = none;
  ranges = Index.default;
  pinned_ranges = [];
  requested_offsets = [];
}

unfoldable pub set_total : StreamingBytesState → Option ℕ → StreamingBytesState
set_total s total = record s { total_bytes = total }

-- `sort_by_key` is stable.
abbrev pub insert_chunk : StreamingByteChunk → List StreamingByteChunk → List StreamingByteChunk
insert_chunk c [] = c ∷ []
insert_chunk c (x ∷ xs) =
    let rest = x ∷ insert_chunk c xs in if ltb x.range.start c.range.start then rest else c ∷ x ∷ xs

abbrev pub sort_chunks : List StreamingByteChunk → List StreamingByteChunk
sort_chunks [] = []
sort_chunks (x ∷ xs) = insert_chunk x (sort_chunks xs)

abbrev pub in_ranges : RangeIndex → ℕ → Bool
in_ranges index offset = any (λ (range : ByteRange). contains range offset) index.ranges

abbrev stored : StreamingBytesState → List ℕ → ByteRange → StreamingBytesState
stored s bytes range =
    if not (length bytes == 0) && not (Index.covers s.ranges range)
    then record s {
      chunks = sort_chunks (s.chunks ++ record { range = range; bytes = bytes } ∷ []);
      ranges = Index.insert s.ranges range;
    }
    else s

abbrev drop_held : StreamingBytesState → StreamingBytesState
drop_held s = record s {
  requested_offsets = filter (λ offset. not (in_ranges s.ranges offset)) s.requested_offsets;
}

unfoldable pub append : StreamingBytesState → List ℕ → ByteRange → StreamingBytesState
append s bytes range = drop_held (stored s bytes range)

abbrev pub push_pinned : List ByteRange → List ByteRange → List ByteRange
push_pinned pinned [] = pinned
push_pinned pinned (r ∷ rs) =
    push_pinned (if any (same_range r) pinned then pinned else pinned ++ r ∷ []) rs

unfoldable pub pin_ranges : StreamingBytesState → List ByteRange → StreamingBytesState
pin_ranges s ranges = record s { pinned_ranges = push_pinned s.pinned_ranges ranges }

abbrev pub index_of : RangeIndex → List StreamingByteChunk → RangeIndex
index_of index [] = index
index_of index (c ∷ cs) = index_of (Index.insert index c.range) cs

abbrev pub kept : ByteRange → List ByteRange → StreamingByteChunk → Bool
kept window pinned c =
    ranges_overlap c.range window || any (λ (p : ByteRange). ranges_overlap c.range p) pinned

unfoldable pub retain_window : StreamingBytesState → ℕ → ℕ → StreamingBytesState
unfolding ranges_overlap Index.default
retain_window s retain_start retain_end =
    let window : ByteRange = record {
      start = retain_start;
      end_inclusive = max retain_end retain_start;
    } in
    let chunks = filter (kept window s.pinned_ranges) s.chunks in
    record s { chunks = chunks; ranges = index_of Index.default chunks }

unfoldable pub fail : StreamingBytesState → String → StreamingBytesState
fail s error = record s { error = some error }

unfoldable pub cancel : StreamingBytesState → StreamingBytesState
cancel s = record s { canceled = true }

unfoldable pub covers : StreamingBytesState → ByteRange → Bool
covers s range = Index.covers s.ranges range

-- `truncate`.
unfoldable pub queue_requested_offset : List ℕ → ℕ → Bool → List ℕ
queue_requested_offset queue offset priority =
    let others = filter (λ queued. queued != offset) queue in
    if not priority && any (λ queued. queued == offset) queue
    then queue
    else take stream_max_pending_offsets
        (if priority then offset ∷ others else others ++ offset ∷ [])

abbrev requested : StreamingBytesState → ℕ → Bool → StreamingBytesState
requested s offset priority =
    if not (in_ranges s.ranges offset)
    then record s { requested_offsets = queue_requested_offset s.requested_offsets offset priority }
    else s

unfoldable pub request_offset : StreamingBytesState → ℕ → StreamingBytesState
unfolding queue_requested_offset normalized_stream_request_offset
request_offset s offset = requested s (normalized_stream_request_offset offset s.total_bytes) false

unfoldable pub prioritize_offset : StreamingBytesState → ℕ → StreamingBytesState
unfolding queue_requested_offset normalized_stream_request_offset
prioritize_offset s offset =
    requested s (normalized_stream_request_offset offset s.total_bytes) true

-- The `while let` loop: what is left of the queue, and the first offset that is not held.
abbrev pub take_from : RangeIndex → ℕ → List ℕ → List ℕ × Option ℕ
take_from index total [] = ([], none)
take_from index total (queued ∷ queue) =
    let offset = normalized_stream_request_offset queued (some total) in
    let rest = take_from index total queue in
    if not (in_ranges index offset) then (queue, some offset) else rest

unfoldable pub take_requested_offset : StreamingBytesState → ℕ → StreamingBytesState × Option ℕ
unfolding normalized_stream_request_offset
take_requested_offset s total =
    let (queue, found) = take_from s.ranges total s.requested_offsets in
    (record s { requested_offsets = queue }, found)

abbrev if_within : ByteRange → ℕ → Option ℕ
if_within range cursor = if leb cursor range.end_inclusive then some cursor else none

-- The loop over the held ranges.
abbrev pub missing_from : ByteRange → ℕ → List ByteRange → Option ℕ
missing_from range cursor [] = if_within range cursor
missing_from range cursor (held ∷ rest) =
    let skipped = missing_from range cursor rest in
    let next = saturating_add_u64 held.end_inclusive 1 in
    let further = missing_from range next rest in
    if ltb held.end_inclusive cursor
    then skipped
    else if ltb cursor held.start
    then some cursor
    else if ltb range.end_inclusive next
    then none
    else further

unfoldable pub first_missing_offset : StreamingBytesState → ByteRange → Option ℕ
first_missing_offset s range = missing_from range range.start s.ranges.ranges

pub data Reading : Type 0 where
  interrupted : Reading
  failed : (error : String) → Reading
  read : (bytes : List ℕ) → Reading
  waiting : Reading

abbrev pub find_chunk : List StreamingByteChunk → ℕ → Option StreamingByteChunk
find_chunk [] offset = none
find_chunk (c ∷ cs) offset =
    let rest = find_chunk cs offset in if contains c.range offset then some c else rest

-- The bytes that are copied to a buffer.
abbrev pub copied : StreamingByteChunk → ℕ → ℕ → List ℕ
copied c offset size =
    let start = offset - c.range.start in
    take (min (length c.bytes - start) size) (drop start c.bytes)

abbrev pub past_end : Option ℕ → ℕ → Bool
past_end total offset = is_some_and total (λ t. leb t offset)

abbrev looked_up :
    StreamingBytesState → ℕ → ℕ → Option StreamingByteChunk → StreamingBytesState × Reading
looked_up s offset size (some c) = (s, read (copied c offset size))
looked_up s offset size none = (
  record s {
    requested_offsets =
        queue_requested_offset s.requested_offsets
          (normalized_stream_request_offset offset s.total_bytes) false;
  },
  waiting,
)

abbrev checked_for_error :
    StreamingBytesState → ℕ → ℕ → Option String → StreamingBytesState × Reading
checked_for_error s offset size (some error) = (s, failed error)
checked_for_error s offset size none =
    if past_end s.total_bytes offset
    then (s, read [])
    else looked_up s offset size (find_chunk s.chunks offset)

-- One attempt to read up to `size` bytes. `decoder_canceled` is the decoder's token.
unfoldable pub read_at : StreamingBytesState → ℕ → ℕ → Bool → StreamingBytesState × Reading
unfolding queue_requested_offset normalized_stream_request_offset
read_at s offset size decoder_canceled =
    if size == 0
    then (s, read [])
    else if s.canceled || decoder_canceled
    then (s, interrupted)
    else checked_for_error s offset size s.error

unfoldable pub retain_streaming_byte_window : StreamingBytesState → ℕ → ℕ → ℕ → StreamingBytesState
unfolding retain_window stream_byte_offset_for_position stream_byte_range_for_window
retain_streaming_byte_window s position_ms duration_ms total_bytes =
    let anchor = stream_byte_offset_for_position position_ms duration_ms total_bytes in
    let target =
      stream_byte_range_for_window position_ms stream_buffer_target_ms duration_ms total_bytes in
    let retain_start = anchor - stream_byte_retain_behind_bytes in
    let retain_end =
      min (saturating_add_u64 target.end_inclusive stream_chunk_bytes) (total_bytes - 1) in
    if total_bytes == 0 then s else retain_window s retain_start retain_end
