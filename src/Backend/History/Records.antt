-- ===== src/Backend/History/Records.antt =====
-- src/backend.rs: where ids differ, the rounds of sort_history_causally do not look at the places.
use link_ear.Prelude.{
  ℕ, zero, suc, String, ◌≡◌, refl, sym, ap, ◌∙◌, inl, inr, Bool, true, not, ◌&&◌, ◌||◌, List, [],
  ◌∷◌, ◌++◌, arith, if◌then◌else◌, Bool-cases, ◌==◌, ◌!=◌, string_eq, nat_eq, bool_eq, option_eq,
  beq→eq, length, any, all, filter,
}
use link_ear.Prelude.Perm.{In, here, there, all-In, In-filter, any_congr}
use link_ear.Core.Types.{ChatRecord}
use link_ear.Backend.History.{
  Entry, chat_depends_on, chat_fallback_less, min_by, sort_by_fallback, is_ready, rounds, records,
  enumerate, sort_history_causally,
}
use link_ear.Backend.History.Rounds.{
  Ascend, Ascend-filter, Ascend-enumerate, one_entry, picked, min_by-In,
}
use link_ear.Backend.History.Kept.{rounds_step, records-enumerate}
use link_ear.Backend.History.Causal.{depends_irrefl, In-enumerate}
use link_ear.Backend.History.Order.{sort_records, records-sort, IsDistinct}

-- The rounds without the places, for records whose ids differ.
abbrev pub min_record : ChatRecord → List ChatRecord → ChatRecord
min_record r [] = r
min_record r (x ∷ xs) = min_record (if chat_fallback_less x r then x else r) xs

abbrev pub is_free : List ChatRecord → ChatRecord → Bool
is_free rs s = not (any (chat_depends_on s) rs)

abbrev pub chosen : ChatRecord → List ChatRecord → ChatRecord → Bool
chosen r rs s =
    if any (is_free (r ∷ rs)) (r ∷ rs) then is_free (r ∷ rs) s else s.id == (min_record r rs).id

abbrev pub record_rounds : ℕ → List ChatRecord → List ChatRecord
record_rounds zero rs = []
record_rounds (suc fuel) [] = []
record_rounds (suc fuel) (r ∷ rs) =
    sort_records (filter (chosen r rs) (r ∷ rs))
    ++ record_rounds fuel (filter (λ s. not (chosen r rs s)) (r ∷ rs))

abbrev pub UniqueIds : List Entry → Type 0
UniqueIds es = (e f : Entry) → In e es → In f es → e.1.id ≡ f.1.id → e ≡ f

UniqueIds-filter : (p : Entry → Bool) (es : List Entry) → UniqueIds es → UniqueIds (filter p es)
UniqueIds-filter p es h e f i j = h e f (In-filter p es e i).0 (In-filter p es f j).0

records-min_by : (e : Entry) (es : List Entry) → (min_by e es).1 ≡ min_record e.1 (records es)
records-min_by e [] = refl
records-min_by e (x ∷ xs) = elim (Bool-cases (chat_fallback_less x.1 e.1)) [
  | inl h ↦ rw (min_by, min_record, h, if◌then◌else◌) (records-min_by x xs)
  | inr h ↦ rw (min_by, min_record, h, if◌then◌else◌) (records-min_by e xs)
]

records-filter :
    (p : Entry → Bool) (q : ChatRecord → Bool) (es : List Entry)
    → ((e : Entry) → In e es → p e ≡ q e.1)
    → records (filter p es) ≡ filter q (records es)
records-filter p q [] h = refl
records-filter p q (e ∷ es) h = elim (Bool-cases (p e)) [
  | inl y ↦
      rw (y, sym (h e (here refl)) ∙ y, if◌then◌else◌)
        (ap (◌∷◌ e.1) (records-filter p q es (λ f i. h f (there i))))
  | inr n ↦
      rw (n, sym (h e (here refl)) ∙ n, if◌then◌else◌)
        (records-filter p q es (λ f i. h f (there i)))
]

records-append : (xs ys : List Entry) → records (xs ++ ys) ≡ records xs ++ records ys
records-append [] ys = refl
records-append (x ∷ xs) ys = ap (◌∷◌ x.1) (records-append xs ys)

any-records : (p : ChatRecord → Bool) (es : List Entry) → any p (records es) ≡ any (λ e. p e.1) es
any-records p [] = refl
any-records p (e ∷ es) = ap (λ b. p e.1 || b) (any-records p es)

is_ready-is_free :
    (b : ℕ) (es : List Entry) (e : Entry)
    → Ascend b es
    → In e es
    → is_ready es e ≡ is_free (records es) e.1
is_ready-is_free b es e h i = ap not (
    any_congr (λ f. (e.0 != f.0) && chat_depends_on e.1 f.1) (λ f. chat_depends_on e.1 f.1) es
      (λ f j. elim (Bool-cases (e.0 == f.0)) [
        | inl same ↦
            let one = one_entry b es e f h i j (beq→eq e.0 f.0 same) in
            ground (arith, same, ap (λ g. chat_depends_on e.1 g.1) one, depends_irrefl e.1)
        | inr other ↦ ground arith
      ])
    ∙ sym (any-records (chat_depends_on e.1) es))

iff_of_beq : (m n : ℕ) (s t : String) → (m ≡ n → s ≡ t) → (s ≡ t → m ≡ n) → (m == n) ≡ (s == t)
iff_of_beq m n s t f g = elim (Bool-cases (s == t)) [
  | inl y ↦ ground (arith, g (beq→eq s t y))
  | inr d ↦ elim (Bool-cases (m == n)) [
    | inl y ↦ absurd (cc (d, (string_eq.beq_iff s t).1 (f (beq→eq m n y))))
    | inr o ↦ o ∙ sym d
  ]
]

same_least :
    (b : ℕ) (e : Entry) (es : List Entry) (f : Entry)
    → Ascend b (e ∷ es)
    → UniqueIds (e ∷ es)
    → In f (e ∷ es)
    → (f.0 == (min_by e es).0) ≡ (f.1.id == (min_record e.1 (records es)).id)
same_least b e es f h u i =
    let m = min_by e es in
    let j = min_by-In e es in
    iff_of_beq f.0 m.0 f.1.id m.1.id (λ p. ap (λ g. g.1.id) (one_entry b (e ∷ es) f m h i j p))
      (λ p. ap (λ g. g.0) (u f m i j p))
    ∙ ap (λ r. f.1.id == r.id) (records-min_by e es)

picked-chosen :
    (b : ℕ) (e : Entry) (es : List Entry) (f : Entry)
    → Ascend b (e ∷ es)
    → UniqueIds (e ∷ es)
    → In f (e ∷ es)
    → picked e es f ≡ chosen e.1 (records es) f.1
picked-chosen b e es f h u i =
    let rs = records (e ∷ es) in
    let some_free =
      any_congr (is_ready (e ∷ es)) (λ g. is_free rs g.1) (e ∷ es)
        (λ g j. is_ready-is_free b (e ∷ es) g h j)
      ∙ sym (any-records (is_free rs) (e ∷ es)) in
    let least = same_least b e es f h u i in
    rw (some_free, is_ready-is_free b (e ∷ es) f h i, least) refl

pub records-rounds :
    (fuel b : ℕ) (es : List Entry)
    → Ascend b es
    → UniqueIds es
    → records (rounds fuel es) ≡ record_rounds fuel (records es)
records-rounds zero b es h u = refl
records-rounds (suc fuel) b [] h u = refl
records-rounds (suc fuel) b (e ∷ es) h u =
    let p = picked e es in
    let q = chosen e.1 (records es) in
    let now = filter p (e ∷ es) in
    let others = filter (λ f. not (p f)) (e ∷ es) in
    let same = λ (f : Entry) (i : In f (e ∷ es)). picked-chosen b e es f h u i in
    ap records (rounds_step b fuel e es h)
    ∙ records-append (sort_by_fallback now) (rounds fuel others)
    ∙ ap (λ rs. rs ++ records (rounds fuel others))
        (records-sort now ∙ ap sort_records (records-filter p q (e ∷ es) same))
    ∙ ap (λ rs. sort_records (filter q (records (e ∷ es))) ++ rs)
        (records-rounds fuel b others (Ascend-filter (λ f. not (p f)) b (e ∷ es) h)
            (UniqueIds-filter (λ f. not (p f)) (e ∷ es) u)
          ∙ ap (record_rounds fuel) (
              records-filter (λ f. not (p f)) (λ r. not (q r)) (e ∷ es) (λ f i. ap not (same f i))))

twins :
    (r : ChatRecord) (rs : List ChatRecord) (e f : Entry)
    → all (λ s. r.id != s.id) rs ≡ true
    → e.1.id ≡ r.id
    → In f.1 rs
    → e.1.id ≡ f.1.id
    → ⊥
twins r rs e f d p i q =
    ground (arith, all-In (λ s. r.id != s.id) rs f.1 d i, string_eq.beq_iff r.id f.1.id, sym p ∙ q)

enumerate-UniqueIds : (b : ℕ) (rs : List ChatRecord) → IsDistinct rs → UniqueIds (enumerate b rs)
enumerate-UniqueIds b [] d e f i j p = elim i [ ]
enumerate-UniqueIds b (r ∷ rs) d e f (here i) (here j) p = i ∙ sym j
enumerate-UniqueIds b (r ∷ rs) d e f (here i) (there j) p =
    absurd (twins r rs e f d.0 (ap (λ g. g.1.id) i) (In-enumerate (suc b) rs f j) p)
enumerate-UniqueIds b (r ∷ rs) d e f (there i) (here j) p =
    absurd (twins r rs f e d.0 (ap (λ g. g.1.id) j) (In-enumerate (suc b) rs e i) (sym p))
enumerate-UniqueIds b (r ∷ rs) d e f (there i) (there j) p =
    enumerate-UniqueIds (suc b) rs d.1 e f i j p

-- Sorting a history whose ids differ.
pub sort_history_causally-record_rounds :
    (history : List ChatRecord)
    → IsDistinct history
    → sort_history_causally history ≡ record_rounds (length history) history
unfolding sort_history_causally
sort_history_causally-record_rounds history d =
    records-rounds (length history) 0 (enumerate 0 history) (Ascend-enumerate 0 history)
      (enumerate-UniqueIds 0 history d)
    ∙ ap (record_rounds (length history)) (records-enumerate 0 history)
