-- ===== src/MediaCache/Index/Normal.antt =====
-- src/media_cache.rs: an index holds its ranges in order and apart, and stands for a set of bytes.
use link_ear.Prelude.{
  ℕ, ◌+◌, ◌≤◌, max, ◌≡◌, refl, ◌∙◌, Bool, ◌||◌, List, [], ◌∷◌, ◌++◌, arith, string_eq, nat_eq,
  bool_eq, option_eq, any, All,
}
use link_ear.MediaCache.{ByteRange, contains, IsRange}
use link_ear.MediaCache.Index.{
  RangeIndex, insert_by_start, sort_by_start, merge_from, merge, insert,
}

-- The bytes of some ranges.
abbrev pub holds : List ByteRange → ℕ → Bool
holds rs offset = any (λ r. contains r offset) rs

-- The byte is on disk.
abbrev pub cached : RangeIndex → ℕ → Bool
cached index offset = holds index.ranges offset

-- Ranges in order, none before the bound, with at least one byte between each and the next.
abbrev pub Apart : ℕ → List ByteRange → Type 0
Apart bound [] = Unit
Apart bound (r ∷ rs) = (bound ≤ r.start) × IsRange r × Apart (r.end_inclusive + 2) rs

abbrev pub IsNormal : RangeIndex → Type 0
IsNormal index = Apart 0 index.ranges

-- Ranges in the order of their starts.
abbrev Ordered : ℕ → List ByteRange → Type 0
Ordered bound [] = Unit
Ordered bound (r ∷ rs) = (bound ≤ r.start) × IsRange r × Ordered r.start rs

insert_by_start-Ordered :
    (bound : ℕ) (r : ByteRange) (rs : List ByteRange)
    → bound ≤ r.start
    → IsRange r
    → Ordered bound rs
    → Ordered bound (insert_by_start r rs)
insert_by_start-Ordered bound r [] b v o = ground arith
insert_by_start-Ordered bound r (x ∷ xs) b v o =
    ground (arith, insert_by_start-Ordered x.start r xs)

sort-Ordered : (rs : List ByteRange) → All IsRange rs → Ordered 0 (sort_by_start rs)
unfolding sort_by_start
sort-Ordered [] v = tt
sort-Ordered (r ∷ rs) v =
    insert_by_start-Ordered 0 r (sort_by_start rs) (omega arith) v.0 (sort-Ordered rs v.1)

insert_by_start-holds :
    (r : ByteRange) (rs : List ByteRange) (offset : ℕ)
    → holds (insert_by_start r rs) offset ≡ (contains r offset || holds rs offset)
insert_by_start-holds r [] offset = refl
insert_by_start-holds r (x ∷ xs) offset = ground (arith, insert_by_start-holds r xs offset)

sort-holds : (rs : List ByteRange) (offset : ℕ) → holds (sort_by_start rs) offset ≡ holds rs offset
unfolding sort_by_start
sort-holds [] offset = refl
sort-holds (r ∷ rs) offset =
    ground (arith, insert_by_start-holds r (sort_by_start rs) offset, sort-holds rs offset)

Ordered-weaken :
    (low bound : ℕ) (rs : List ByteRange) → Ordered bound rs → low ≤ bound → Ordered low rs
Ordered-weaken low bound [] o h = tt
Ordered-weaken low bound (r ∷ rs) o h = ground arith

merge_from-Apart :
    (bound : ℕ) (last : ByteRange) (rs : List ByteRange)
    → bound ≤ last.start
    → IsRange last
    → Ordered last.start rs
    → Apart bound (merge_from last rs)
unfolding merge_from
merge_from-Apart bound last [] b v o = ground arith
merge_from-Apart bound last (r ∷ rs) b v o =
    let wider = record last { end_inclusive = max last.end_inclusive r.end_inclusive } in
    ground (
      arith,
      Ordered-weaken last.start r.start rs,
      merge_from-Apart bound wider rs,
      merge_from-Apart (last.end_inclusive + 2) r rs,
    )

merge_from-holds :
    (last : ByteRange) (rs : List ByteRange) (offset : ℕ)
    → IsRange last
    → Ordered last.start rs
    → holds (merge_from last rs) offset ≡ (contains last offset || holds rs offset)
unfolding merge_from
merge_from-holds last [] offset v o = refl
merge_from-holds last (r ∷ rs) offset v o =
    let wider = record last { end_inclusive = max last.end_inclusive r.end_inclusive } in
    ground (
      arith,
      Ordered-weaken last.start r.start rs,
      merge_from-holds wider rs offset,
      merge_from-holds r rs offset,
    )

merge-Apart : (rs : List ByteRange) → Ordered 0 rs → Apart 0 (merge rs)
merge-Apart [] o = tt
merge-Apart (r ∷ rs) o = merge_from-Apart 0 r rs (omega arith) o.1 o.2

merge-holds :
    (rs : List ByteRange) (offset : ℕ) → Ordered 0 rs → holds (merge rs) offset ≡ holds rs offset
merge-holds [] offset o = refl
merge-holds (r ∷ rs) offset o = merge_from-holds r rs offset o.1 o.2

Apart-All : (bound : ℕ) (rs : List ByteRange) → Apart bound rs → All IsRange rs
Apart-All bound [] a = tt
Apart-All bound (r ∷ rs) a = (a.1, Apart-All (r.end_inclusive + 2) rs a.2)

All-append :
    (rs : List ByteRange) (r : ByteRange) → All IsRange rs → IsRange r → All IsRange (rs ++ r ∷ [])
All-append [] r a v = (v, tt)
All-append (x ∷ xs) r a v = (a.0, All-append xs r a.1 v)

append-holds :
    (rs : List ByteRange) (r : ByteRange) (offset : ℕ)
    → holds (rs ++ r ∷ []) offset ≡ (contains r offset || holds rs offset)
append-holds [] r offset = refl
append-holds (x ∷ xs) r offset = ground (arith, append-holds xs r offset)

pushed-Ordered :
    (index : RangeIndex) (range : ByteRange)
    → IsNormal index
    → IsRange range
    → Ordered 0 (sort_by_start (index.ranges ++ range ∷ []))
pushed-Ordered index range n v =
    sort-Ordered (index.ranges ++ range ∷ [])
      (All-append index.ranges range (Apart-All 0 index.ranges n) v)

pub insert-IsNormal :
    (index : RangeIndex) (range : ByteRange)
    → IsNormal index
    → IsRange range
    → IsNormal (insert index range)
unfolding insert
insert-IsNormal index range n v =
    merge-Apart (sort_by_start (index.ranges ++ range ∷ [])) (pushed-Ordered index range n v)

-- Inserting a range puts its bytes on disk and keeps those that were there, and no others.
pub cached-insert :
    (index : RangeIndex) (range : ByteRange) (offset : ℕ)
    → IsNormal index
    → IsRange range
    → cached (insert index range) offset ≡ (contains range offset || cached index offset)
unfolding insert
cached-insert index range offset n v =
    let pushed = index.ranges ++ range ∷ [] in
    merge-holds (sort_by_start pushed) offset (pushed-Ordered index range n v)
    ∙ sort-holds pushed offset
    ∙ append-holds index.ranges range offset
