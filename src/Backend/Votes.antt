-- ===== src/Backend/Votes.antt =====
-- src/backend.rs: what a vote that passed does to the queue.
use link_ear.Prelude.{
  ℕ, zero, suc, min, String, ◌≡◌, refl, ap, ◌∙◌, ◌⊎◌, inl, inr, Bool, true, false, ◌&&◌, Option,
  none, some, List, [], ◌∷◌, ◌++◌, arith, ltb, if◌then◌else◌, Bool-cases, ◌==◌, string_eq, nat_eq,
  bool_eq, option_eq, length, take, drop, any,
}
use link_ear.Prelude.Int.{ℤ}
use link_ear.Core.Types.{QueueItem, VoteProposal, VoteAction, remove, move}
use mathlib.Core.List.{Permᴰ}
use mathlib.Core.List.Permᴰ
use link_ear.Music.State.{MusicState}
use link_ear.Music.Queue.{remove_at, mark_queue_vote_applied}

abbrev is_queue_action : VoteAction → Bool
is_queue_action (remove item_id) = true
is_queue_action (move item_id to_index) = true
is_queue_action _ = false

unfoldable pub queue_vote_needs_newer_state : VoteProposal → ℕ → Bool
queue_vote_needs_newer_state proposal local_queue_version =
    is_queue_action proposal.action && ltb local_queue_version proposal.queue_version

-- `Iterator::position`.
abbrev pub position : (QueueItem → Bool) → List QueueItem → Option ℕ
position p [] = none
position p (x ∷ xs) =
    let rest = position p xs in
    if p x then some 0 else elim rest [ none ↦ none | some i ↦ some (suc i) ]

-- `VecDeque::insert`, at an index within the queue.
abbrev pub insert_at : List QueueItem → ℕ → QueueItem → List QueueItem
insert_at xs i x = take i xs ++ x ∷ drop i xs

-- The arms of `execute_vote_action` for the queue. What is published and shown is not modelled.
abbrev removed_at : MusicState → ℤ → Option ℕ → MusicState
removed_at m created_at_micros none = m
removed_at m created_at_micros (some index) =
    mark_queue_vote_applied (record m { queue = (remove_at m.queue index).0 }) created_at_micros

unfoldable pub execute_remove : MusicState → String → ℤ → MusicState
unfolding mark_queue_vote_applied
execute_remove m item_id created_at_micros =
    removed_at m created_at_micros (position (λ item. item.item_id == item_id) m.queue)

abbrev put_back : MusicState → ℕ → ℤ → List QueueItem × Option QueueItem → MusicState
put_back m to_index created_at_micros (rest, none) = record m { queue = rest }
put_back m to_index created_at_micros (rest, some item) =
    mark_queue_vote_applied (record m { queue = insert_at rest (min to_index (length rest)) item })
      created_at_micros

abbrev moved_to : MusicState → ℕ → ℤ → Option ℕ → MusicState
moved_to m to_index created_at_micros none = m
moved_to m to_index created_at_micros (some index) =
    put_back m to_index created_at_micros (remove_at m.queue index)

unfoldable pub execute_move : MusicState → String → ℕ → ℤ → MusicState
unfolding mark_queue_vote_applied
execute_move m item_id to_index created_at_micros =
    moved_to m to_index created_at_micros (position (λ item. item.item_id == item_id) m.queue)

-- The first item that passes a test, with the items around it and its index.
abbrev pub FirstAt :
    (QueueItem → Bool) → List QueueItem → List QueueItem → QueueItem → List QueueItem → Type 0
FirstAt p xs before item after =
    (xs ≡ before ++ item ∷ after) × (any p before ≡ false) × (p item ≡ true)

abbrev pub Found : (QueueItem → Bool) → List QueueItem → Type 0
Found p xs =
    (before : List QueueItem) × (item : QueueItem) × (after : List QueueItem) × FirstAt p xs before
      item after
    × (position p xs ≡ some (length before))
    × (remove_at xs (length before) ≡ (before ++ after, some item))

Found-cons :
    (p : QueueItem → Bool) (x : QueueItem) (xs : List QueueItem)
    → p x ≡ false
    → Found p xs
    → Found p (x ∷ xs)
Found-cons p x xs n (before, item, after, (split, first, fits), at, removed) = (
  x ∷ before,
  item,
  after,
  (ap (◌∷◌ x) split, ground arith, fits),
  ground (arith, n, at),
  ap (λ r. (x ∷ r.0, r.1)) removed,
)

pub position_lem :
    (p : QueueItem → Bool) (xs : List QueueItem)
    → ((any p xs ≡ false) × (position p xs ≡ none)) ⊎ Found p xs
position_lem p [] = inl (refl, refl)
position_lem p (x ∷ xs) = elim (Bool-cases (p x)) [
  | inl y ↦ inr ([], x, xs, (refl, refl, y), ground (arith, y), refl)
  | inr n ↦ elim (position_lem p xs) [
    | inl none_ ↦ inl (ground (arith, none_), ground (arith, n, none_))
    | inr found ↦ inr (Found-cons p x xs n found)
  ]
]

abbrev pub has_item : String → QueueItem → Bool
has_item item_id item = item.item_id == item_id

-- A vote to remove an item leaves all as it is where the item is gone; otherwise it takes the first item
-- with the id out of the queue and makes the queue newer.
pub execute_remove_lem :
    (m : MusicState) (item_id : String) (created_at_micros : ℤ)
    → ((any (has_item item_id) m.queue ≡ false) × (execute_remove m item_id created_at_micros ≡ m))
      ⊎ ((before : List QueueItem) × (item : QueueItem) × (after : List QueueItem) × FirstAt
            (has_item item_id)
            m.queue
            before
            item
            after
          × (execute_remove m item_id created_at_micros
              ≡ mark_queue_vote_applied (record m { queue = before ++ after }) created_at_micros))
unfolding execute_remove
execute_remove_lem m item_id created_at_micros = elim (position_lem (has_item item_id) m.queue) [
  | inl gone ↦ inl (gone.0, ap (removed_at m created_at_micros) gone.1)
  | inr (before, item, after, first, at, removed) ↦ inr (
    before,
    item,
    after,
    first,
    ap (removed_at m created_at_micros) at
        ∙ ap (λ r. mark_queue_vote_applied (record m { queue = r.0 }) created_at_micros) removed,
  )
]

insert_at-Permᴰ : (xs : List QueueItem) (i : ℕ) (x : QueueItem) → Permᴰ (insert_at xs i x) (x ∷ xs)
insert_at-Permᴰ xs zero x = Permᴰ.refl (x ∷ xs)
insert_at-Permᴰ [] (suc i) x = Permᴰ.refl (x ∷ [])
insert_at-Permᴰ (y ∷ ys) (suc i) x =
    Permᴰ.trans (Permᴰ.cons refl (insert_at-Permᴰ ys i x)) (Permᴰ.swap refl refl)

-- A vote to move an item leaves all as it is where the item is gone; otherwise it takes the first item with
-- the id out of the queue and puts it at the given index, or at the end where there is no such index, so
-- that the queue holds the same items and the others keep their order; it makes the queue newer.
pub execute_move_lem :
    (m : MusicState) (item_id : String) (to_index : ℕ) (created_at_micros : ℤ)
    → ((any (has_item item_id) m.queue ≡ false)
        × (execute_move m item_id to_index created_at_micros ≡ m))
      ⊎ ((before : List QueueItem) × (item : QueueItem) × (after : List QueueItem) × FirstAt
            (has_item item_id)
            m.queue
            before
            item
            after
          × (execute_move m item_id to_index created_at_micros
              ≡ mark_queue_vote_applied
                  (record m {
                    queue =
                        insert_at (before ++ after) (min to_index (length (before ++ after))) item;
                  })
                  created_at_micros)
          × Permᴰ
              (insert_at (before ++ after) (min to_index (length (before ++ after))) item)
              m.queue)
unfolding execute_move
execute_move_lem m item_id to_index created_at_micros =
    elim (position_lem (has_item item_id) m.queue) [
      | inl gone ↦ inl (gone.0, ap (moved_to m to_index created_at_micros) gone.1)
      | inr (before, item, after, first, at, removed) ↦ inr (
        before,
        item,
        after,
        first,
        ap (moved_to m to_index created_at_micros) at
            ∙ ap (put_back m to_index created_at_micros) removed,
        Permᴰ.trans
            (insert_at-Permᴰ (before ++ after) (min to_index (length (before ++ after))) item)
            (rw first.0 (Permᴰ.symm (Permᴰ.middle item before after))),
      )
    ]
