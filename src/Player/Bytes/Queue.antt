-- ===== src/Player/Bytes/Queue.antt =====
-- src/player.rs: the queue of the offsets that readers wait for.
use link_ear.Prelude.{
  ℕ, zero, suc, ◌≤◌, ◌≡◌, refl, sym, ap, ◌⊎◌, inl, inr, Bool, true, false, ◌&&◌, ◌||◌, none, some,
  List, [], ◌∷◌, ◌++◌, arith, Bool-cases, ◌==◌, ◌!=◌, string_eq, nat_eq, bool_eq, option_eq, beq→eq,
  length, take, length-append, any, filter,
}
use link_ear.Prelude.HashSet.{contains, Distinct}
use link_ear.MediaCache.Index.{RangeIndex}
use link_ear.MediaCache.Index.Normal.{cached}
use link_ear.Player.Stream.{stream_max_pending_offsets, normalized_stream_request_offset}
use link_ear.Player.Bytes.{queue_requested_offset, take_from}

-- No offset is queued twice, and no more than six are.
abbrev pub IsQueue : List ℕ → Type 0
IsQueue queue = Distinct queue × (length queue ≤ stream_max_pending_offsets)

length-take-le : {A : Type 0} (n : ℕ) (xs : List A) → length (take n xs) ≤ n
length-take-le zero xs = omega arith
length-take-le (suc n) [] = omega arith
length-take-le (suc n) (x ∷ xs) = omega (arith, length-take-le n xs)

contains-take :
    (n : ℕ) (xs : List ℕ) (a : ℕ) → contains xs a ≡ false → contains (take n xs) a ≡ false
unfolding contains
contains-take zero xs a h = refl
contains-take (suc n) [] a h = refl
contains-take (suc n) (x ∷ xs) a h = ground (arith, contains-take n xs a)

take-Distinct : (n : ℕ) (xs : List ℕ) → Distinct xs → Distinct (take n xs)
take-Distinct zero xs d = tt
take-Distinct (suc n) [] d = tt
take-Distinct (suc n) (x ∷ xs) d = (contains-take n xs x d.0, take-Distinct n xs d.1)

pub contains-filter :
    (p : ℕ → Bool) (xs : List ℕ) (a : ℕ) → contains (filter p xs) a ≡ (p a && contains xs a)
unfolding contains
contains-filter p [] a = ground arith
contains-filter p (x ∷ xs) a = elim (Bool-cases (x == a)) [
  | inl same ↦ rw (sym (beq→eq x a same)) (ground (arith, contains-filter p xs x))
  | inr other ↦ ground (arith, contains-filter p xs a)
]

pub filter-Distinct : (p : ℕ → Bool) (xs : List ℕ) → Distinct xs → Distinct (filter p xs)
filter-Distinct p [] d = tt
filter-Distinct p (x ∷ xs) d = ground (arith, contains-filter p xs x, filter-Distinct p xs d.1)

pub length-filter-le : {A : Type 0} (p : A → Bool) (xs : List A) → length (filter p xs) ≤ length xs
length-filter-le p [] = omega arith
length-filter-le p (x ∷ xs) = ground (arith, length-filter-le p xs)

contains-push : (xs : List ℕ) (b a : ℕ) → contains (xs ++ b ∷ []) a ≡ (contains xs a || (b == a))
unfolding contains
contains-push [] b a = ground arith
contains-push (x ∷ xs) b a = ground (arith, contains-push xs b a)

push-Distinct :
    (xs : List ℕ) (b : ℕ) → contains xs b ≡ false → Distinct xs → Distinct (xs ++ b ∷ [])
unfolding contains
push-Distinct [] b h d = (refl, tt)
push-Distinct (x ∷ xs) b h d = ground (arith, contains-push xs b x, push-Distinct xs b)

any-contains : (xs : List ℕ) (a : ℕ) → any (λ x. x == a) xs ≡ contains xs a
unfolding contains
any-contains [] a = refl
any-contains (x ∷ xs) a = ground (arith, any-contains xs a)

without-Distinct :
    (queue : List ℕ) (offset : ℕ)
    → Distinct queue
    → (contains (filter (λ queued. queued != offset) queue) offset ≡ false)
      × Distinct (filter (λ queued. queued != offset) queue)
without-Distinct queue offset d = ground (
  arith,
  contains-filter (λ queued. queued != offset) queue offset,
  filter-Distinct (λ queued. queued != offset) queue d,
)

pub queue_requested_offset-IsQueue :
    (queue : List ℕ) (offset : ℕ) (priority : Bool)
    → IsQueue queue
    → IsQueue (queue_requested_offset queue offset priority)
unfolding queue_requested_offset
queue_requested_offset-IsQueue queue offset priority q =
    let others = filter (λ queued. queued != offset) queue in
    let without = without-Distinct queue offset q.0 in
    ground (
      arith,
      take-Distinct 6 (offset ∷ others),
      take-Distinct 6 (others ++ offset ∷ []),
      push-Distinct others offset,
      length-take-le 6 (offset ∷ others),
      length-take-le 6 (others ++ offset ∷ []),
    )

-- A queue of six offsets that do not include this one.
abbrev pub IsFull : List ℕ → ℕ → Type 0
IsFull queue offset = (contains queue offset ≡ false) × (stream_max_pending_offsets ≤ length queue)

take-all : {A : Type 0} (n : ℕ) (xs : List A) → length xs ≤ n → take n xs ≡ xs
take-all zero [] h = refl
take-all zero (x ∷ xs) h = absurd (omega (arith, h))
take-all (suc n) [] h = refl
take-all (suc n) (x ∷ xs) h = ap (λ r. x ∷ r) (take-all n xs (omega arith))

filter-others :
    (queue : List ℕ) (offset : ℕ)
    → contains queue offset ≡ false
    → filter (λ queued. queued != offset) queue ≡ queue
unfolding contains
filter-others [] offset h = refl
filter-others (x ∷ xs) offset h = ground (arith, filter-others xs offset)

-- An offset that is queued without priority keeps its place when it waits already, and is the last
-- otherwise; it is left out when six others wait.
pub queue_requested_offset-plain :
    (queue : List ℕ) (offset : ℕ)
    → IsQueue queue
    → (contains (queue_requested_offset queue offset false) offset ≡ true) ⊎ IsFull queue offset
unfolding queue_requested_offset contains
queue_requested_offset-plain queue offset q = ground (
  arith,
  any-contains queue offset,
  filter-others queue offset,
  length-append queue (offset ∷ []),
  take-all 6 (queue ++ offset ∷ []),
  contains-push queue offset offset,
)

pub take_from_lem :
    (index : RangeIndex) (total : ℕ) (queue : List ℕ)
    → IsQueue queue
    → IsQueue (take_from index total queue).0
      × ((offset : ℕ) → (take_from index total queue).1 ≡ some offset → cached index offset ≡ false)
      × ((take_from index total queue).1 ≡ none
          → (queued : ℕ) → contains queue queued ≡ true
          → cached index (normalized_stream_request_offset queued (some total)) ≡ true)
unfolding contains
take_from_lem index total [] q = (q, (λ offset h. cc), (λ h queued c. cc))
take_from_lem index total (x ∷ xs) q =
    let (rest_queue, rest_found, rest_none) =
      take_from_lem index total xs (q.0.1, omega (arith, q.1)) in
    let here = cached index (normalized_stream_request_offset x (some total)) in
    (
      ground arith,
      (λ offset h. ground (arith, rest_found offset)),
      (λ h queued c. elim (Bool-cases (x == queued)) [
        | inl same ↦ rw (sym (beq→eq x queued same)) (ground arith)
        | inr other ↦ rest_none (ground arith) queued (ground arith)
      ]),
    )
