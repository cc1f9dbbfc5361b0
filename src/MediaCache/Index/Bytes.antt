-- ===== src/MediaCache/Index/Bytes.antt =====
-- src/media_cache.rs: what a RangeIndex answers, in terms of the bytes on disk.
use link_ear.Prelude.{
  ℕ, suc, ◌+◌, ◌≤◌, ◌<◌, ◌≡◌, refl, ◌↔◌, ◌⊎◌, inl, inr, Bool, true, false, ◌&&◌, none, some, List,
  [], ◌∷◌, arith, ltb, leb, ltb→lt, Bool-cases, string_eq, nat_eq, bool_eq, option_eq, any,
}
use link_ear.Prelude.Words.{saturating_add_u64, u64_max}
use link_ear.MediaCache.{ByteRange, contains, IsRange}
use link_ear.MediaCache.Index.{RangeIndex, covers, contiguous_until, run_until}
use link_ear.MediaCache.Index.Normal.{holds, cached, Apart, IsNormal}

-- Nothing is held before the bound.
pub Apart-holds :
    (bound : ℕ) (rs : List ByteRange) (offset : ℕ)
    → Apart bound rs
    → holds rs offset ≡ true
    → (bound ≤ offset) × (offset ≤ u64_max)
Apart-holds bound [] offset a h = cc
Apart-holds bound (r ∷ rs) offset a h = ground (arith, Apart-holds (r.end_inclusive + 2) rs offset)

abbrev covers_any : List ByteRange → ByteRange → Bool
covers_any rs range =
    any (λ (x : ByteRange). leb x.start range.start && leb range.end_inclusive x.end_inclusive) rs

covered_bytes :
    (rs : List ByteRange) (range : ByteRange) (offset : ℕ)
    → covers_any rs range ≡ true
    → contains range offset ≡ true
    → holds rs offset ≡ true
covered_bytes [] range offset h c = cc
covered_bytes (r ∷ rs) range offset h c = ground (arith, covered_bytes rs range offset)

bytes_covered :
    (bound : ℕ) (rs : List ByteRange) (range : ByteRange)
    → Apart bound rs
    → IsRange range
    → ((offset : ℕ) → contains range offset ≡ true → holds rs offset ≡ true)
    → covers_any rs range ≡ true
bytes_covered bound [] range a v h = ground (arith, h range.start)
bytes_covered bound (r ∷ rs) range a v h = elim (Bool-cases (contains r range.start)) [
  | inl here ↦ ground (
    arith,
    h (r.end_inclusive + 1),
    Apart-holds (r.end_inclusive + 2) rs (r.end_inclusive + 1) a.2,
  )
  | inr gone ↦
      let beyond : r.end_inclusive < range.start =
        ground (arith, h range.start, Apart-holds (r.end_inclusive + 2) rs range.start a.2) in
      ground (
        arith,
        bytes_covered (r.end_inclusive + 2) rs range a.2 v λ offset c. ground (arith, h offset),
      )
]

-- An index that is in order covers a range exactly when every byte of the range is on disk.
pub covers_iff :
    (index : RangeIndex) (range : ByteRange)
    → IsNormal index
    → IsRange range
    → (covers index range ≡ true)
      ↔ ((offset : ℕ) → contains range offset ≡ true → cached index offset ≡ true)
unfolding covers
covers_iff index range n v = (
  (λ h offset c. covered_bytes index.ranges range offset h c),
  (λ h. bytes_covered 0 index.ranges range n v h),
)

-- After a range that holds the cursor the loop stops at its end, since the next range lies apart.
run_until_stops :
    (end : ℕ) (rs : List ByteRange)
    → end ≤ u64_max
    → Apart (end + 2) rs
    → run_until (saturating_add_u64 end 1) (some end) rs ≡ some end
run_until_stops end [] u a = refl
run_until_stops end (r ∷ rs) u a = ground arith

-- The end of a run of bytes from `start`.
abbrev pub RunsTo : List ByteRange → ℕ → ℕ → Type 0
RunsTo rs start end =
    (start ≤ end)
    × ((offset : ℕ) → start ≤ offset → offset ≤ end → holds rs offset ≡ true)
    × (holds rs (suc end) ≡ false)

pub not_held :
    (bound : ℕ) (rs : List ByteRange) (offset : ℕ)
    → offset < bound
    → Apart bound rs
    → holds rs offset ≡ false
not_held bound rs offset h a = elim (Bool-cases (holds rs offset)) [
  | inl e ↦ absurd (omega (arith, Apart-holds bound rs offset a e))
  | inr e ↦ e
]

-- What the loop answers about some ranges.
Until : List ByteRange → ℕ → Type 0
Until rs start =
    ((run_until start none rs ≡ none) × (holds rs start ≡ false))
    ⊎ ((end : ℕ) × (run_until start none rs ≡ some end) × RunsTo rs start end)

skips_first :
    (start : ℕ) (r : ByteRange) (rs : List ByteRange)
    → r.end_inclusive < start
    → Until rs start
    → Until (r ∷ rs) start
unfolding Until
skips_first start r rs h (inl (e, none_held)) = inl (ground arith, ground arith)
skips_first start r rs h (inr (end, e, (up, held, next))) =
    inr (end, ground arith, (up, (λ offset a b. ground (arith, held offset a b)), ground arith))

runs_on : (bound start : ℕ) (rs : List ByteRange) → Apart bound rs → Until rs start
unfolding Until
runs_on bound start [] a = inl (refl, refl)
runs_on bound start (r ∷ rs) a = elim (Bool-cases (ltb r.end_inclusive start)) [
  | inl skip ↦
      skips_first start r rs (omega (arith, ltb→lt r.end_inclusive start skip))
        (runs_on (r.end_inclusive + 2) start rs a.2)
  | inr stay ↦ elim (Bool-cases (ltb start r.start)) [
    | inl before ↦ inl (ground arith, ground (arith, not_held (r.end_inclusive + 2) rs start))
    | inr inside ↦ inr (
      r.end_inclusive,
      ground (arith, run_until_stops r.end_inclusive rs),
      (
        ground arith,
        (λ offset x y. ground arith),
        ground (arith, not_held (r.end_inclusive + 2) rs (suc r.end_inclusive)),
      ),
    )
  ]
]

-- From a byte that is on disk, an index that is in order answers the last byte of the unbroken run that
-- starts there; from any other byte it answers nothing.
pub contiguous_until_runs :
    (index : RangeIndex) (start : ℕ)
    → IsNormal index
    → ((contiguous_until index start ≡ none) × (cached index start ≡ false))
      ⊎ ((end : ℕ) × (contiguous_until index start ≡ some end) × RunsTo index.ranges start end)
unfolding contiguous_until Until
contiguous_until_runs index start n = runs_on 0 start index.ranges n
