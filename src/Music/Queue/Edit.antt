-- ===== src/Music/Queue/Edit.antt =====
-- src/music_state.rs: edits of the queue by an index that counts from 1.
use link_ear.Prelude.{
  ℕ, zero, suc, ◌-◌, ◌≤◌, ◌<◌, ◌≡◌, refl, ap, ◌⊎◌, none, some, List, [], ◌∷◌, ◌++◌, arith,
  string_eq, nat_eq, bool_eq, option_eq, length, get_elem?, take, drop,
}
use link_ear.Core.Types.{QueueItem}
use link_ear.Music.State.{MusicState}
use link_ear.Music.Queue.{append_queue_item, remove_at, remove_queue_index, queue_item_at}

remove_at-cases :
    (xs : List QueueItem) (i : ℕ)
    → ((remove_at xs i).1 ≡ get_elem? xs i)
      × (i < length xs → (remove_at xs i).0 ≡ take i xs ++ drop (suc i) xs)
      × (length xs ≤ i → remove_at xs i ≡ (xs, none))
remove_at-cases [] i = (refl, (λ h. elim h [ ]), (λ h. refl))
remove_at-cases (x ∷ xs) zero = (refl, (λ h. refl), (λ h. absurd (omega arith)))
remove_at-cases (x ∷ xs) (suc i) =
    let (found, inside, outside) = remove_at-cases xs i in
    (
      found,
      (λ h. ap (λ t. x ∷ t) (inside (omega arith))),
      (λ h. ground (arith, outside (omega arith))),
    )

-- Removing by an index answers the item that the index names. From 1 to the length of the queue it
-- takes out that item and keeps all others in order; index 0 and indices past the end change nothing.
pub remove_queue_index-splits :
    (m : MusicState) (i : ℕ)
    → let (m', item) = remove_queue_index m i in
      (item ≡ queue_item_at m.queue i)
      × (1 ≤ i
          → i ≤ length m.queue
          → m' ≡ record m { queue = take (i - 1) m.queue ++ drop i m.queue })
      × ((i ≡ 0) ⊎ (length m.queue < i) → (m' ≡ m) × (item ≡ none))
unfolding remove_queue_index queue_item_at
remove_queue_index-splits m zero = (refl, (λ a b. absurd (omega arith)), (λ h. (refl, refl)))
remove_queue_index-splits m (suc i) =
    let (found, inside, outside) = remove_at-cases m.queue i in
    (
      found,
      (λ a b. ground (arith, inside b)),
      (λ h.
          let beyond : remove_at m.queue i ≡ (m.queue, none) = outside (omega arith) in
          (ground arith, ground arith)),
    )

remove_at_last :
    (xs : List QueueItem) (item : QueueItem)
    → remove_at (xs ++ item ∷ []) (length xs) ≡ (xs, some item)
remove_at_last [] item = refl
remove_at_last (x ∷ xs) item = ground (arith, remove_at_last xs item)

-- The index that an append answers, counted from 1, names the new item, and removing it restores the
-- state.
pub remove-append :
    (m : MusicState) (item : QueueItem)
    → let (m', index) = append_queue_item m item in
      remove_queue_index m' (suc index) ≡ (m, some item)
unfolding remove_queue_index append_queue_item
remove-append m item = ground (arith, remove_at_last m.queue item)
