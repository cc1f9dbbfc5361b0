-- ===== src/Player/Bytes/Missing.antt =====
-- src/player.rs: the first offset of a range that is not in memory.
use link_ear.Prelude.{
  ℕ, suc, ◌+◌, ◌≤◌, ◌<◌, ◌≡◌, refl, ◌⊎◌, inl, inr, true, false, Option, none, some, List, [], ◌∷◌,
  arith, ltb, leb, ltb→lt, Bool-cases, string_eq, nat_eq, bool_eq, option_eq,
}
use link_ear.Prelude.Words.{saturating_add_u64, u64_max}
use link_ear.MediaCache.{ByteRange, contains, IsRange}
use link_ear.MediaCache.Index.Normal.{holds, cached, Apart, IsNormal}
use link_ear.MediaCache.Index.Bytes.{not_held}
use link_ear.Player.Bytes.{StreamingBytesState, missing_from, first_missing_offset}

-- What the loop answers from a cursor on.
abbrev Answer : ByteRange → ℕ → List ByteRange → Option ℕ → Type 0
Answer range cursor rs answer =
    ((answer ≡ none)
      × ((offset : ℕ) → cursor ≤ offset → offset ≤ range.end_inclusive → holds rs offset ≡ true))
    ⊎ ((missing : ℕ) × (answer ≡ some missing)
        × (cursor ≤ missing)
        × (missing ≤ range.end_inclusive)
        × (holds rs missing ≡ false)
        × ((offset : ℕ) → cursor ≤ offset → offset < missing → holds rs offset ≡ true))

skips :
    (range r : ByteRange) (cursor : ℕ) (rs : List ByteRange) (answer : Option ℕ)
    → r.end_inclusive < cursor
    → Answer range cursor rs answer
    → Answer range cursor (r ∷ rs) answer
skips range r cursor rs answer h (inl (e, all_held)) =
    inl (e, (λ offset a b. ground (arith, all_held offset a b)))
skips range r cursor rs answer h (inr (missing, e, low, high, absent, before)) =
    inr (missing, e, low, high, ground arith, (λ offset a b. ground (arith, before offset a b)))

goes_on :
    (range r : ByteRange) (cursor : ℕ) (rs : List ByteRange) (answer : Option ℕ)
    → r.start ≤ cursor
    → cursor ≤ r.end_inclusive
    → Answer range (suc r.end_inclusive) rs answer
    → Answer range cursor (r ∷ rs) answer
goes_on range r cursor rs answer h k (inl (e, all_held)) = inl (
  e,
  (λ offset a b. elim (Bool-cases (leb offset r.end_inclusive)) [
    | inl here ↦ ground arith
    | inr later ↦ ground (arith, all_held offset (ground arith) b)
  ]),
)
goes_on range r cursor rs answer h k (inr (missing, e, low, high, absent, before)) = inr (
  missing,
  e,
  omega arith,
  high,
  ground arith,
  (λ offset a b. elim (Bool-cases (leb offset r.end_inclusive)) [
    | inl here ↦ ground arith
    | inr later ↦ ground (arith, before offset (ground arith) b)
  ]),
)

missing_from_lem :
    (bound : ℕ) (range : ByteRange) (cursor : ℕ) (rs : List ByteRange)
    → Apart bound rs
    → range.end_inclusive < u64_max
    → cursor ≤ range.end_inclusive
    → Answer range cursor rs (missing_from range cursor rs)
missing_from_lem bound range cursor [] a u c =
    inr (cursor, ground arith, omega arith, c, refl, (λ offset x y. absurd (omega arith)))
missing_from_lem bound range cursor (r ∷ rs) a u c =
    elim (Bool-cases (ltb r.end_inclusive cursor)) [
      | inl past ↦ rw past (
          skips range r cursor rs (missing_from range cursor rs)
            (ltb→lt r.end_inclusive cursor past)
            (missing_from_lem (r.end_inclusive + 2) range cursor rs a.2 u c))
      | inr within ↦ elim (Bool-cases (ltb cursor r.start)) [
        | inl gap ↦ rw within (
            rw gap (
              inr (
                cursor,
                refl,
                omega arith,
                c,
                ground (arith, not_held (r.end_inclusive + 2) rs cursor),
                (λ offset x y. absurd (omega arith)),
              )))
        | inr held ↦
            elim (Bool-cases (ltb range.end_inclusive (saturating_add_u64 r.end_inclusive 1))) [
              | inl done ↦ rw within (rw held (rw done (inl (refl, (λ offset x y. ground arith)))))
              | inr more ↦
                  let next : saturating_add_u64 r.end_inclusive 1 ≡ suc r.end_inclusive =
                    ground arith in
                  rw within (
                    rw held (
                      rw more (
                        rw next (
                          goes_on range r cursor rs (missing_from range (suc r.end_inclusive) rs)
                            (ground arith) (ground arith)
                            (missing_from_lem (r.end_inclusive + 2) range (suc r.end_inclusive) rs
                              a.2 u (ground arith))))))
            ]
      ]
    ]

-- In an index that is in order, the first missing offset of a range is the first of its offsets that is
-- not in memory, and there is none exactly when all of them are.
pub first_missing_offset-first :
    (s : StreamingBytesState) (range : ByteRange)
    → IsNormal s.ranges
    → IsRange range
    → range.end_inclusive < u64_max
    → ((first_missing_offset s range ≡ none)
        × ((offset : ℕ) → contains range offset ≡ true → cached s.ranges offset ≡ true))
      ⊎ ((missing : ℕ) × (first_missing_offset s range ≡ some missing)
          × (contains range missing ≡ true)
          × (cached s.ranges missing ≡ false)
          × ((offset : ℕ)
              → range.start ≤ offset
              → offset < missing
              → cached s.ranges offset ≡ true))
unfolding first_missing_offset
first_missing_offset-first s range n v u =
    elim (missing_from_lem 0 range range.start s.ranges.ranges n u v.0) [
      | inl (e, all_held) ↦ inl (e, (λ offset h. all_held offset (ground arith) (ground arith)))
      | inr (missing, e, low, high, absent, before) ↦ inr (missing, e, ground arith, absent, before)
    ]
