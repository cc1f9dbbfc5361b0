-- ===== src/Backend/History.antt =====
-- src/backend.rs: the chat history, which a peer keeps in causal order.
pub mod Rounds
pub mod Kept
pub mod Causal
pub mod Order
pub mod Records
pub mod Alike
pub mod Log
pub mod Frontier
pub mod Converge
use link_ear.Prelude.{
  ℕ, zero, suc, ◌-◌, max, String, Bool, true, false, not, ◌&&◌, ◌||◌, Option, none, some, List, [],
  ◌∷◌, ◌++◌, ltb, leb, if◌then◌else◌, is_some_and, ◌==◌, ◌!=◌, string_eq, nat_eq, bool_eq,
  option_eq, length, take, drop, any, filter,
}
use link_ear.Prelude.HashSet
use link_ear.Prelude.HashMap
use link_ear.Prelude.HashSet.{HashSet}
use link_ear.Prelude.HashMap.{HashMap}
use link_ear.Prelude.Int.{ℤ, ltb_ℤ, int_eq}
use link_ear.Prelude.Text.{str_lt, concat, display_ℤ}
use link_ear.Core.Types.{ChatRecord}
use link_ear.Core.Clock.{normalize_timestamp_micros}

abbrev pub max_messages : ℕ
max_messages = 300

-- A record with its place in the history.
abbrev pub Entry : Type 0
Entry = ℕ × ChatRecord

unfoldable pub chat_actor_key : String → Option ℤ → String
chat_actor_key peer_id none = peer_id
chat_actor_key peer_id (some joined_at) = concat (peer_id ∷ "@" ∷ display_ℤ joined_at ∷ [])

unfoldable pub chat_record_actor_key : ChatRecord → Option String
chat_record_actor_key r =
    if (r.seq == 0) || (r.peer_id == "") then none else some (chat_actor_key r.peer_id r.joined_at)

unfoldable pub chat_depends_on : ChatRecord → ChatRecord → Bool
unfolding chat_record_actor_key
chat_depends_on r candidate =
    if r.id == candidate.id
    then false
    else if (candidate.seq == 0) || (candidate.peer_id == "")
    then false
    else elim (chat_record_actor_key candidate) [
      | none ↦ false
      | some key ↦
          if (chat_record_actor_key r == some key) && (ltb 0 r.seq && ltb candidate.seq r.seq)
          then true
          else is_some_and (HashMap.get r.causal_frontier key)
              (λ latest_seen. leb candidate.seq latest_seen)
    ]

-- `chat_fallback_order` is `Less`: by the time in microseconds and then by the id.
unfoldable pub chat_fallback_less : ChatRecord → ChatRecord → Bool
unfolding normalize_timestamp_micros
chat_fallback_less left right =
    let left_time = normalize_timestamp_micros left.sent_at in
    let right_time = normalize_timestamp_micros right.sent_at in
    ltb_ℤ left_time right_time || ((left_time == right_time) && str_lt left.id right.id)

-- `min_by` keeps the first of equal elements.
abbrev pub min_by : Entry → List Entry → Entry
min_by e [] = e
min_by e (x ∷ xs) = min_by (if chat_fallback_less x.1 e.1 then x else e) xs

-- `sort_by` is stable.
abbrev pub insert_by_fallback : Entry → List Entry → List Entry
insert_by_fallback e [] = e ∷ []
insert_by_fallback e (x ∷ xs) =
    let rest = x ∷ insert_by_fallback e xs in
    if chat_fallback_less x.1 e.1 then rest else e ∷ x ∷ xs

abbrev pub sort_by_fallback : List Entry → List Entry
sort_by_fallback [] = []
sort_by_fallback (e ∷ es) = insert_by_fallback e (sort_by_fallback es)

-- No other entry that remains comes before this one.
abbrev pub is_ready : List Entry → Entry → Bool
is_ready remaining candidate =
    not (any (λ other. (candidate.0 != other.0) && chat_depends_on candidate.1 other.1) remaining)

-- The entries of a round, in their order: those that are ready, or else the least entry.
abbrev pub sorted_or_least : Entry → List Entry → List Entry → List Entry
sorted_or_least first others [] = min_by first others ∷ []
sorted_or_least first others (e ∷ es) = sort_by_fallback (e ∷ es)

abbrev pub ready_entries : Entry → List Entry → List Entry
ready_entries first others =
    sorted_or_least first others (filter (is_ready (first ∷ others)) (first ∷ others))

abbrev pub retain_others : List Entry → List Entry → List Entry
retain_others [] remaining = remaining
retain_others (e ∷ es) remaining = retain_others es (filter (λ other. other.0 != e.0) remaining)

-- The `while` loop, for at most so many rounds.
abbrev pub rounds : ℕ → List Entry → List Entry
rounds zero remaining = []
rounds (suc fuel) [] = []
rounds (suc fuel) (e ∷ es) =
    let ready = ready_entries e es in ready ++ rounds fuel (retain_others ready (e ∷ es))

abbrev pub enumerate : ℕ → List ChatRecord → List Entry
enumerate index [] = []
enumerate index (r ∷ rs) = (index, r) ∷ enumerate (suc index) rs

abbrev pub records : List Entry → List ChatRecord
records [] = []
records (e ∷ es) = e.1 ∷ records es

-- Each round takes an entry at least, so that there are no more rounds than records.
unfoldable pub sort_history_causally : List ChatRecord → List ChatRecord
sort_history_causally history = records (rounds (length history) (enumerate 0 history))

abbrev pub ids : List ChatRecord → List String
ids [] = []
ids (r ∷ rs) = r.id ∷ ids rs

abbrev pub forget_ids : HashSet String → List ChatRecord → HashSet String
forget_ids seen_messages [] = seen_messages
forget_ids seen_messages (r ∷ rs) = forget_ids (HashSet.remove seen_messages r.id).0 rs

abbrev pub trimmed : List ChatRecord → HashSet String → List ChatRecord × HashSet String
trimmed history seen_messages =
    if ltb max_messages (length history)
    then (let overflow = length history - max_messages in
        (drop overflow history, forget_ids seen_messages (take overflow history)))
    else (history, seen_messages)

-- The history, the ids that are seen, and whether the record is new.
unfoldable pub insert_record :
    List ChatRecord → HashSet String → ChatRecord → List ChatRecord × HashSet String × Bool
unfolding HashSet.insert
insert_record history seen_messages record_ =
    let (seen, is_new) = HashSet.insert seen_messages record_.id in
    if not is_new
    then (history, seen, false)
    else (let (kept, seen_kept) = trimmed (sort_history_causally (history ++ record_ ∷ [])) seen in
        (kept, seen_kept, true))

-- The loop over the records of a `HistoryResponse`: the history and the ids that are seen after it.
abbrev pub receive_records :
    List ChatRecord → HashSet String → List ChatRecord → List ChatRecord × HashSet String
receive_records history seen [] = (history, seen)
receive_records history seen (r ∷ rs) =
    let (history', seen', is_new) = insert_record history seen r in
    receive_records history' seen' rs

abbrev pub and_modify : HashMap String ℕ → String → ℕ → HashMap String ℕ
and_modify frontier key seq = elim (HashMap.get frontier key) [
  | none ↦ HashMap.insert frontier key seq
  | some latest ↦ HashMap.insert frontier key (max latest seq)
]

abbrev pub frontier_from : HashMap String ℕ → List ChatRecord → HashMap String ℕ
frontier_from frontier [] = frontier
frontier_from frontier (r ∷ rs) = elim (chat_record_actor_key r) [
  | none ↦ frontier_from frontier rs
  | some key ↦ frontier_from (and_modify frontier key r.seq) rs
]

unfoldable pub history_frontier : List ChatRecord → HashMap String ℕ
history_frontier history = frontier_from HashMap.new history
