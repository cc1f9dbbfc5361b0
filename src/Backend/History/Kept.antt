-- ===== src/Backend/History/Kept.antt =====
-- src/backend.rs: what a round of sort_history_causally does, and that the rounds keep all records.
use link_ear.Prelude.{
  ℕ, zero, suc, ◌≤◌, ◌<◌, ◌≡◌, refl, sym, ap, ◌∙◌, inl, inr, Bool, true, not, ◌&&◌, List, [], ◌∷◌,
  ◌++◌, arith, Bool-cases, ◌==◌, ◌!=◌, string_eq, nat_eq, bool_eq, option_eq, beq_refl, beq→eq,
  length, length-append, any, filter,
}
use link_ear.Prelude.Perm.{
  In, In-filter, filter_congr, any_congr, any-Permᴰ, length-Permᴰ, filter_both, any-In, filter-In,
  filter_none, filter-filter, length-filter, exists_of_any,
}
use link_ear.Core.Types.{ChatRecord}
use link_ear.Backend.History.{
  Entry, min_by, sort_by_fallback, is_ready, sorted_or_least, ready_entries, retain_others, rounds,
  enumerate, records, sort_history_causally,
}
use link_ear.Backend.History.Rounds.{
  Ascend, Ascend-filter, Ascend-enumerate, one_entry, filter-place, picked, min_by-In,
  sort_by_fallback-Permᴰ,
}
use mathlib.Core.List.{Permᴰ}
use mathlib.Core.List.Permᴰ

pub some_picked : (e : Entry) (es : List Entry) → any (picked e es) (e ∷ es) ≡ true
some_picked e es = elim (Bool-cases (any (is_ready (e ∷ es)) (e ∷ es))) [
  | inl h ↦ any_congr (picked e es) (is_ready (e ∷ es)) (e ∷ es) (λ f i. ground arith) ∙ h
  | inr h ↦
      any-In (picked e es) (e ∷ es) (min_by e es) (min_by-In e es)
        (ground (arith, beq_refl (min_by e es).0))
]

sorted_or_least-sorts :
    (e : Entry) (es found : List Entry)
    → 0 < length found
    → sorted_or_least e es found ≡ sort_by_fallback found
sorted_or_least-sorts e es [] l = absurd (omega (arith, l))
sorted_or_least-sorts e es (f ∷ fs) l = refl

-- The entries of a round are those that pass the test, sorted.
pub ready_entries_lem :
    (b : ℕ) (e : Entry) (es : List Entry)
    → Ascend b (e ∷ es)
    → ready_entries e es ≡ sort_by_fallback (filter (picked e es) (e ∷ es))
ready_entries_lem b e es h = elim (Bool-cases (any (is_ready (e ∷ es)) (e ∷ es))) [
  | inl y ↦
      sorted_or_least-sorts e es (filter (is_ready (e ∷ es)) (e ∷ es))
        (length-filter (is_ready (e ∷ es)) (e ∷ es) y)
      ∙ ap sort_by_fallback
          (filter_congr (is_ready (e ∷ es)) (picked e es) (e ∷ es) (λ f i. rw y refl))
  | inr n ↦
      ap (sorted_or_least e es) (filter_none (is_ready (e ∷ es)) (e ∷ es) n)
      ∙ ap sort_by_fallback (
          sym (filter-place b (e ∷ es) (min_by e es) h (min_by-In e es))
          ∙ filter_congr (λ f. f.0 == (min_by e es).0) (picked e es) (e ∷ es) (λ f i. rw n refl))
]

filter_all : (rs : List Entry) → filter (λ r. true) rs ≡ rs
filter_all [] = refl
filter_all (r ∷ rs) = ap (◌∷◌ r) (filter_all rs)

abbrev has_place : List Entry → Entry → Bool
has_place es r = any (λ e. e.0 == r.0) es

retain_others-filter :
    (es rs : List Entry) → retain_others es rs ≡ filter (λ r. not (has_place es r)) rs
retain_others-filter [] rs = sym (filter_all rs)
retain_others-filter (e ∷ es) rs =
    retain_others-filter es (filter (λ r. r.0 != e.0) rs)
    ∙ filter-filter (λ r. not (has_place es r)) (λ r. r.0 != e.0) rs
    ∙ filter_congr (λ r. (r.0 != e.0) && not (has_place es r)) (λ r. not (has_place (e ∷ es) r)) rs
        (λ r i. ground arith)

has_place-filter :
    (b : ℕ) (p : Entry → Bool) (rs : List Entry) (r : Entry)
    → Ascend b rs
    → In r rs
    → has_place (filter p rs) r ≡ p r
has_place-filter b p rs r h i = elim (Bool-cases (has_place (filter p rs) r)) [
  | inl y ↦
      let (f, j, e) = exists_of_any (λ f. f.0 == r.0) (filter p rs) y in
      let (k, pf) = In-filter p rs f j in
      y ∙ sym (sym (ap p (one_entry b rs f r h k i (beq→eq f.0 r.0 e))) ∙ pf)
  | inr n ↦ elim (Bool-cases (p r)) [
    | inl y ↦ cc (any-In (λ f. f.0 == r.0) (filter p rs) r (filter-In p rs r i y) (beq_refl r.0))
    | inr m ↦ n ∙ sym m
  ]
]

-- What remains behind a round are the entries that do not pass the test.
pub retain_others_lem :
    (b : ℕ) (p : Entry → Bool) (rs : List Entry)
    → Ascend b rs
    → retain_others (sort_by_fallback (filter p rs)) rs ≡ filter (λ r. not (p r)) rs
retain_others_lem b p rs h =
    retain_others-filter (sort_by_fallback (filter p rs)) rs
    ∙ filter_congr (λ r. not (has_place (sort_by_fallback (filter p rs)) r)) (λ r. not (p r)) rs
        (λ r i. ap not (
          any-Permᴰ (λ f. f.0 == r.0) (sort_by_fallback-Permᴰ (filter p rs))
          ∙ has_place-filter b p rs r h i))

-- A round puts the entries that pass the test, sorted, in front of what the next rounds make of the others.
pub rounds_step :
    (b fuel : ℕ) (e : Entry) (es : List Entry)
    → Ascend b (e ∷ es)
    → rounds (suc fuel) (e ∷ es)
      ≡ sort_by_fallback (filter (picked e es) (e ∷ es))
        ++ rounds fuel (filter (λ f. not (picked e es f)) (e ∷ es))
rounds_step b fuel e es h =
    ap (λ ready. ready ++ rounds fuel (retain_others ready (e ∷ es))) (ready_entries_lem b e es h)
    ∙ ap (λ rest. sort_by_fallback (filter (picked e es) (e ∷ es)) ++ rounds fuel rest)
        (retain_others_lem b (picked e es) (e ∷ es) h)

pub fewer_remain :
    (fuel : ℕ) (e : Entry) (es : List Entry)
    → length (e ∷ es) ≤ suc fuel
    → length (filter (λ f. not (picked e es f)) (e ∷ es)) ≤ fuel
fewer_remain fuel e es l = omega (
  arith,
  length-Permᴰ (filter_both (picked e es) (e ∷ es)),
  length-append (filter (picked e es) (e ∷ es)) (filter (λ f. not (picked e es f)) (e ∷ es)),
  length-filter (picked e es) (e ∷ es) (some_picked e es),
)

pub rounds-Permᴰ :
    (fuel b : ℕ) (rs : List Entry) → Ascend b rs → length rs ≤ fuel → Permᴰ (rounds fuel rs) rs
rounds-Permᴰ zero b [] h l = Permᴰ.nil
rounds-Permᴰ zero b (e ∷ es) h l = absurd (omega (arith, l))
rounds-Permᴰ (suc fuel) b [] h l = Permᴰ.nil
rounds-Permᴰ (suc fuel) b (e ∷ es) h l =
    let p = picked e es in
    let others = filter (λ f. not (p f)) (e ∷ es) in
    rw (rounds_step b fuel e es h) (
      Permᴰ.trans
        (Permᴰ.append_right (rounds fuel others) (sort_by_fallback-Permᴰ (filter p (e ∷ es))))
        (Permᴰ.trans
          (Permᴰ.append_left (filter p (e ∷ es)) (
            rounds-Permᴰ fuel b others (Ascend-filter (λ f. not (p f)) b (e ∷ es) h)
              (fewer_remain fuel e es l)))
          (filter_both p (e ∷ es))))

pub records-Permᴰ : {es fs : List Entry} → Permᴰ es fs → Permᴰ (records es) (records fs)
records-Permᴰ Permᴰ.nil = Permᴰ.nil
records-Permᴰ (Permᴰ.cons e d) = Permᴰ.cons (ap (λ f. f.1) e) (records-Permᴰ d)
records-Permᴰ (Permᴰ.swap e f) = Permᴰ.swap (ap (λ g. g.1) e) (ap (λ g. g.1) f)
records-Permᴰ (Permᴰ.trans d d') = Permᴰ.trans (records-Permᴰ d) (records-Permᴰ d')

pub records-enumerate : (b : ℕ) (rs : List ChatRecord) → records (enumerate b rs) ≡ rs
records-enumerate b [] = refl
records-enumerate b (r ∷ rs) = ap (◌∷◌ r) (records-enumerate (suc b) rs)

pub length-enumerate : (b : ℕ) (rs : List ChatRecord) → length (enumerate b rs) ≡ length rs
length-enumerate b [] = refl
length-enumerate b (r ∷ rs) = ap suc (length-enumerate (suc b) rs)

-- Sorting ends, keeps every record of the history and adds none.
pub sort_history_causally-Permᴰ :
    (history : List ChatRecord) → Permᴰ (sort_history_causally history) history
unfolding sort_history_causally
sort_history_causally-Permᴰ history =
    Permᴰ.trans
      (records-Permᴰ (
        rounds-Permᴰ (length history) 0 (enumerate 0 history) (Ascend-enumerate 0 history)
          (omega (arith, length-enumerate 0 history))))
      (rw (records-enumerate 0 history) (Permᴰ.refl history))
