-- ===== src/MediaCache/Index.antt =====
-- src/media_cache.rs: RangeIndex, the ranges that are on disk.
pub mod Normal
pub mod Bytes
pub mod Canonical
use link_ear.Prelude.{
  ℕ, max, Bool, ◌&&◌, Option, none, some, List, [], ◌∷◌, ◌++◌, ltb, leb, if◌then◌else◌, string_eq,
  nat_eq, bool_eq, option_eq, any,
}
use link_ear.Prelude.Words.{saturating_add_u64}
use link_ear.MediaCache.{ByteRange}

pub record RangeIndex : Type 0 where
  pub ranges : List ByteRange

unfoldable pub default : RangeIndex
default = record { ranges = [] }

-- `sort_by_key` is stable.
abbrev pub insert_by_start : ByteRange → List ByteRange → List ByteRange
insert_by_start r [] = r ∷ []
insert_by_start r (x ∷ xs) =
    let rest = x ∷ insert_by_start r xs in if ltb x.start r.start then rest else r ∷ x ∷ xs

unfoldable pub sort_by_start : List ByteRange → List ByteRange
sort_by_start [] = []
sort_by_start (x ∷ xs) = insert_by_start x (sort_by_start xs)

-- The loop over the sorted ranges, with the last range that has been merged.
unfoldable pub merge_from : ByteRange → List ByteRange → List ByteRange
merge_from last [] = last ∷ []
merge_from last (r ∷ rs) =
    let wider =
      merge_from (record last { end_inclusive = max last.end_inclusive r.end_inclusive }) rs in
    let apart = last ∷ merge_from r rs in
    if leb r.start (saturating_add_u64 last.end_inclusive 1) then wider else apart

abbrev pub merge : List ByteRange → List ByteRange
merge [] = []
merge (r ∷ rs) = merge_from r rs

unfoldable pub insert : RangeIndex → ByteRange → RangeIndex
unfolding sort_by_start merge_from
insert index range = record { ranges = merge (sort_by_start (index.ranges ++ range ∷ [])) }

unfoldable pub covers : RangeIndex → ByteRange → Bool
covers index range =
    any
      (λ (cached : ByteRange).
        leb cached.start range.start && leb range.end_inclusive cached.end_inclusive)
      index.ranges

-- The loop, with its cursor and the end that it has found.
abbrev pub run_until : ℕ → Option ℕ → List ByteRange → Option ℕ
run_until cursor end [] = end
run_until cursor end (r ∷ rs) =
    let skipped = run_until cursor end rs in
    let further = run_until (saturating_add_u64 r.end_inclusive 1) (some r.end_inclusive) rs in
    if ltb r.end_inclusive cursor then skipped else if ltb cursor r.start then end else further

unfoldable pub contiguous_until : RangeIndex → ℕ → Option ℕ
contiguous_until index start = run_until start none index.ranges
