-- ===== src/Backend/History/Causal.antt =====
-- src/backend.rs: sort_history_causally puts a record behind those it depends on.
use link_ear.Prelude.{
  ℕ, zero, suc, ◌≤◌, ◌<◌, ◌≡◌, refl, sym, ap, ◌∙◌, inl, inr, Bool, true, false, not, ◌&&◌, ◌||◌,
  List, [], ◌∷◌, ◌++◌, arith, ltb, leb, leb→le, Bool-cases, ◌==◌, ◌!=◌, string_eq, nat_eq, bool_eq,
  option_eq, beq_refl, beq→eq, length, any, all, filter,
}
use link_ear.Prelude.Perm.{
  In, here, there, all-In, all_of_In, In-filter, In-Permᴰ, all-Permᴰ, any-In, exists_of_any,
}
use link_ear.Core.Types.{ChatRecord}
use link_ear.Backend.History.{
  Entry, chat_depends_on, sort_by_fallback, is_ready, rounds, enumerate, records,
  sort_history_causally,
}
use link_ear.Backend.History.Rounds.{
  Ascend, Ascend-filter, Ascend-enumerate, one_entry, picked, sort_by_fallback-Permᴰ,
}
use link_ear.Backend.History.Kept.{rounds_step, rounds-Permᴰ, fewer_remain, length-enumerate}

pub depends_irrefl : (r : ChatRecord) → chat_depends_on r r ≡ false
unfolding chat_depends_on
depends_irrefl r = ground (arith, beq_refl r.id)

-- No record stands in front of one that it depends on.
abbrev pub IsCausal : List ChatRecord → Type 0
IsCausal [] = Unit
IsCausal (r ∷ rs) = (all (λ s. not (chat_depends_on r s)) rs ≡ true) × IsCausal rs

abbrev free_of : Entry → Entry → Bool
free_of e f = not (chat_depends_on e.1 f.1)

all-records : (p : ChatRecord → Bool) (es : List Entry) → all p (records es) ≡ all (λ e. p e.1) es
all-records p [] = refl
all-records p (e ∷ es) = ap (λ b. p e.1 && b) (all-records p es)

IsCausal-append :
    (xs ys : List Entry)
    → ((e : Entry) → In e xs → all (free_of e) (xs ++ ys) ≡ true)
    → IsCausal (records ys)
    → IsCausal (records (xs ++ ys))
IsCausal-append [] ys h c = c
IsCausal-append (x ∷ xs) ys h c = (
  all-records (λ s. not (chat_depends_on x.1 s)) (xs ++ ys) ∙ ground (arith, h x (here refl)),
  IsCausal-append xs ys (λ e i. ground (arith, h e (there i))) c,
)

pub In-enumerate : (b : ℕ) (rs : List ChatRecord) (e : Entry) → In e (enumerate b rs) → In e.1 rs
In-enumerate b [] e i = elim i [ ]
In-enumerate b (r ∷ rs) e (here p) = here (ap (λ f. f.1) p)
In-enumerate b (r ∷ rs) e (there i) = there (In-enumerate (suc b) rs e i)

module _ (rank : ChatRecord → ℕ) where
  -- What a record depends on has a lower rank.
  abbrev pub ranks : List ChatRecord → Bool
  ranks h = all (λ a. all (λ b. not (chat_depends_on a b) || ltb (rank b) (rank a)) h) h

  abbrev Ranked : List Entry → Type 0
  Ranked es =
      (e f : Entry) → In e es → In f es → chat_depends_on e.1 f.1 ≡ true → rank f.1 < rank e.1

  Ranked-filter : (p : Entry → Bool) (es : List Entry) → Ranked es → Ranked (filter p es)
  Ranked-filter p es h e f i j = h e f (In-filter p es e i).0 (In-filter p es f j).0

  In-one : (e f : Entry) → In f (e ∷ []) → rank e.1 ≤ rank f.1
  In-one e f (here p) = omega (arith, ap (λ g. rank g.1) p)
  In-one e f (there i) = elim i [ ]

  below_first :
      (e x : Entry) (xs : List Entry) (m : Entry)
      → ((f : Entry) → In f (x ∷ xs) → rank m.1 ≤ rank f.1)
      → rank e.1 ≤ rank m.1
      → (f : Entry) → In f (e ∷ x ∷ xs)
      → rank e.1 ≤ rank f.1
  below_first e x xs m h l f (here p) = omega (arith, ap (λ g. rank g.1) p)
  below_first e x xs m h l f (there i) = omega (arith, l, h f i)

  below_rest :
      (e x : Entry) (xs : List Entry) (m : Entry)
      → ((f : Entry) → In f (x ∷ xs) → rank m.1 ≤ rank f.1)
      → rank m.1 < rank e.1
      → (f : Entry) → In f (e ∷ x ∷ xs)
      → rank m.1 ≤ rank f.1
  below_rest e x xs m h l f (here p) = omega (arith, l, ap (λ g. rank g.1) p)
  below_rest e x xs m h l f (there i) = h f i

  least_rank :
      (e : Entry) (es : List Entry)
      → (m : Entry) × In m (e ∷ es) × ((f : Entry) → In f (e ∷ es) → rank m.1 ≤ rank f.1)
  least_rank e [] = (e, here refl, (λ f i. In-one e f i))
  least_rank e (x ∷ xs) =
      let (m, i, least) = least_rank x xs in
      elim (Bool-cases (leb (rank e.1) (rank m.1))) [
        | inl h ↦
            (e, here refl, (λ f j. below_first e x xs m least (leb→le (rank e.1) (rank m.1) h) f j))
        | inr h ↦ (m, there i, (λ f j. below_rest e x xs m least (ground arith) f j))
      ]

  some_ready :
      (b : ℕ) (e : Entry) (es : List Entry)
      → Ranked (e ∷ es)
      → any (is_ready (e ∷ es)) (e ∷ es) ≡ true
  some_ready b e es r =
      let (m, i, least) = least_rank e es in
      any-In (is_ready (e ∷ es)) (e ∷ es) m i
        (elim (Bool-cases (any (λ f. (m.0 != f.0) && chat_depends_on m.1 f.1) (e ∷ es))) [
          | inl y ↦
              let (f, j, d) =
                exists_of_any (λ f. (m.0 != f.0) && chat_depends_on m.1 f.1) (e ∷ es) y in
              absurd (omega (arith, least f j, r m f i j (ground arith)))
          | inr n ↦ ap not n
        ])

  ready_is_free :
      (b : ℕ) (rs : List Entry) (e : Entry)
      → Ascend b rs
      → In e rs
      → is_ready rs e ≡ true
      → all (free_of e) rs ≡ true
  ready_is_free b rs e h i r = all_of_In (free_of e) rs λ f j.
      elim (Bool-cases (chat_depends_on e.1 f.1)) [
        | inr n ↦ ap not n
        | inl y ↦ elim (Bool-cases (e.0 == f.0)) [
          | inl same ↦
              let one = one_entry b rs e f h i j (beq→eq e.0 f.0 same) in
              absurd (cc (y, ap (λ g. chat_depends_on e.1 g.1) one, depends_irrefl e.1))
          | inr other ↦
              absurd (ground (arith, any-In (λ g. (e.0 != g.0) && chat_depends_on e.1 g.1) rs f j))
        ]
      ]

  rounds-IsCausal :
      (fuel b : ℕ) (rs : List Entry)
      → Ascend b rs
      → length rs ≤ fuel
      → Ranked rs
      → IsCausal (records (rounds fuel rs))
  rounds-IsCausal zero b rs h l r = tt
  rounds-IsCausal (suc fuel) b [] h l r = tt
  rounds-IsCausal (suc fuel) b (e ∷ es) h l r =
      let p = picked e es in
      let rs = e ∷ es in
      let others = filter (λ f. not (p f)) rs in
      let ready = some_ready b e es r in
      rw (rounds_step b fuel e es h) (
        IsCausal-append (sort_by_fallback (filter p rs)) (rounds fuel others)
          (λ f i.
            let (j, picks) =
              In-filter p rs f (In-Permᴰ f (sort_by_fallback-Permᴰ (filter p rs)) i) in
            ap (all (free_of f)) (sym (rounds_step b fuel e es h))
            ∙ all-Permᴰ (free_of f) (rounds-Permᴰ (suc fuel) b rs h l)
            ∙ ready_is_free b rs f h j (ground (arith, ready, picks)))
          (rounds-IsCausal fuel b others (Ascend-filter (λ f. not (p f)) b rs h)
            (fewer_remain fuel e es l) (Ranked-filter (λ f. not (p f)) rs r)))

  enumerate-Ranked : (h : List ChatRecord) → ranks h ≡ true → Ranked (enumerate 0 h)
  enumerate-Ranked h r e f i j d =
      let lower =
        λ (a : ChatRecord) (b : ChatRecord). not (chat_depends_on a b) || ltb (rank b) (rank a) in
      let all_lower = all-In (λ a. all (lower a) h) h e.1 r (In-enumerate 0 h e i) in
      let is_lower = all-In (lower e.1) h f.1 all_lower (In-enumerate 0 h f j) in
      ground (arith, is_lower)

  -- If ranks can be given to the records of a history such that whatever a record depends on has a lower
  -- rank, then sorting leaves no record in front of one that it depends on.
  pub sort_history_causally-IsCausal :
      (history : List ChatRecord) → ranks history ≡ true → IsCausal (sort_history_causally history)
  unfolding sort_history_causally
  sort_history_causally-IsCausal history r =
      rounds-IsCausal (length history) 0 (enumerate 0 history) (Ascend-enumerate 0 history)
        (omega (arith, length-enumerate 0 history)) (enumerate-Ranked history r)
