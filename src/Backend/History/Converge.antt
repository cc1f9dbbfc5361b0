-- ===== src/Backend/History/Converge.antt =====
-- src/backend.rs: a peer's chat history as the messages come in.
use link_ear.Prelude.{
  ◌≤◌, ◌<◌, String, ◌≡◌, refl, sym, ap, ◌∙◌, true, false, List, [], ◌∷◌, ◌++◌, arith, ltb,
  if◌then◌else◌, ◌!=◌, string_eq, nat_eq, bool_eq, option_eq, length, length-append, all,
}
use link_ear.Prelude.HashSet
use link_ear.Prelude.HashSet.{HashSet, contains}
use link_ear.Prelude.Perm.{all-append, length-Permᴰ}
use link_ear.Core.Types.{ChatRecord}
use link_ear.Backend.History.{max_messages, insert_record, receive_records, sort_history_causally}
use link_ear.Backend.History.Kept.{sort_history_causally-Permᴰ}
use link_ear.Backend.History.Order.{IsDistinct, IsDistinct-Permᴰ}
use link_ear.Backend.History.Log.{has_id, IsLog, insert_record-IsLog, sorted-Permᴰ}
use link_ear.Backend.History.Alike.{sort_history_causally-alike}
use mathlib.Core.Path.{subst}
use mathlib.Core.List.{Permᴰ}
use mathlib.Core.List.Permᴰ

not_in :
    (r : ChatRecord) (rs : List ChatRecord)
    → all (λ s. r.id != s.id) rs ≡ true
    → has_id r.id rs ≡ false
not_in r [] h = refl
not_in r (s ∷ ss) h =
    ground (arith, not_in r ss, string_eq.beq_iff s.id r.id, string_eq.beq_iff r.id s.id)

-- A new record, where there is room.
inserted :
    (history : List ChatRecord) (seen : HashSet String) (r : ChatRecord)
    → contains seen r.id ≡ false
    → length history < max_messages
    → insert_record history seen r ≡ (sort_history_causally (history ++ r ∷ []), r.id ∷ seen, true)
unfolding insert_record HashSet.insert
inserted history seen r n l =
    let sorted = sort_history_causally (history ++ r ∷ []) in
    let room : ltb max_messages (length sorted) ≡ false =
      ground (arith, length-Permᴰ (sorted-Permᴰ history r)) in
    rw (n, if◌then◌else◌, room) refl

receive_records-sorts :
    (origin history : List ChatRecord) (seen : HashSet String) (rs : List ChatRecord)
    → history ≡ sort_history_causally origin
    → IsLog history seen
    → IsDistinct (rs ++ history)
    → length (rs ++ history) ≤ max_messages
    → (all_ : List ChatRecord) × ((receive_records history seen rs).0 ≡ sort_history_causally all_)
      × Permᴰ all_ (rs ++ history)
receive_records-sorts origin history seen [] e log d l =
    (origin, e, rw e (Permᴰ.symm (sort_history_causally-Permᴰ origin)))
receive_records-sorts origin history seen (r ∷ rs) e log d l =
    let sorted = sort_history_causally (history ++ r ∷ []) in
    let others = all-append (λ s. r.id != s.id) rs history in
    let step =
      inserted history seen r (log.2 r.id ∙ not_in r history (ground (arith, others, d.0)))
        (omega (arith, l, length-append rs history)) in
    let logged = insert_record-IsLog history seen r log in
    let kept =
      Permᴰ.trans (Permᴰ.append_left rs (sorted-Permᴰ history r)) (Permᴰ.middle r rs history) in
    let (all_, same, q) =
      receive_records-sorts (history ++ r ∷ []) sorted (r.id ∷ seen) rs refl
        (subst (λ t. IsLog t.0 t.1) step logged.0) (IsDistinct-Permᴰ (Permᴰ.symm kept) d)
        (omega (arith, l, length-Permᴰ kept)) in
    (all_, ap (λ t. (receive_records t.0 t.1 rs).0) step ∙ same, Permᴰ.trans q kept)

new-IsLog : IsLog [] HashSet.new
unfolding contains
new-IsLog = (omega arith, tt, (λ id. refl))

sort-new : [] ≡ sort_history_causally []
unfolding sort_history_causally
sort-new = refl

receive_records-new :
    (rs : List ChatRecord)
    → IsDistinct rs
    → length rs ≤ max_messages
    → (all_ : List ChatRecord) × ((receive_records [] HashSet.new rs).0
        ≡ sort_history_causally all_)
      × Permᴰ all_ rs
receive_records-new rs d l =
    let end = Permᴰ.append-nil rs in
    let (all_, same, q) =
      receive_records-sorts [] [] HashSet.new rs sort-new new-IsLog
        (IsDistinct-Permᴰ (Permᴰ.symm end) d) (omega (arith, l, length-Permᴰ end)) in
    (all_, same, Permᴰ.trans q end)

-- Two peers to which the same records come in, at most 300 and no two with one id, have the same history in
-- the end, in whatever orders the records came in.
pub receive_records_converge :
    (rs ss : List ChatRecord)
    → Permᴰ rs ss
    → IsDistinct rs
    → length rs ≤ max_messages
    → (receive_records [] HashSet.new rs).0 ≡ (receive_records [] HashSet.new ss).0
receive_records_converge rs ss p d l =
    let (mine, sorts_mine, p_mine) = receive_records-new rs d l in
    let (other, sorts_other, p_other) =
      receive_records-new ss (IsDistinct-Permᴰ p d) (omega (arith, l, length-Permᴰ p)) in
    sorts_mine
    ∙ sort_history_causally-alike mine other
        (Permᴰ.trans p_mine (Permᴰ.trans p (Permᴰ.symm p_other)))
        (IsDistinct-Permᴰ (Permᴰ.symm p_mine) d)
    ∙ sym sorts_other
