-- ===== src/Backend/History/Log.antt =====
-- src/backend.rs: insert_record keeps the ids that are seen in step with the history.
use link_ear.Prelude.{
  ℕ, zero, suc, ◌-◌, ◌≤◌, String, ◌≡◌, refl, sym, ap, ◌∙◌, inl, inr, Bool, true, false, not, ◌&&◌,
  List, [], ◌∷◌, ◌++◌, arith, ltb, if◌then◌else◌, Bool-cases, ◌==◌, ◌!=◌, string_eq, nat_eq,
  bool_eq, option_eq, length, take, drop, any, all,
}
use link_ear.Prelude.HashSet
use link_ear.Prelude.HashSet.{HashSet, contains, contains-delete}
use link_ear.Prelude.Perm.{any-Permᴰ}
use link_ear.Core.Types.{ChatRecord}
use link_ear.Backend.History.{
  max_messages, forget_ids, trimmed, insert_record, sort_history_causally,
}
use link_ear.Backend.History.Kept.{sort_history_causally-Permᴰ}
use link_ear.Backend.History.Order.{IsDistinct, IsDistinct-Permᴰ}
use mathlib.Core.List.{Permᴰ}
use mathlib.Core.List.Permᴰ

abbrev pub has_id : String → List ChatRecord → Bool
has_id id rs = any (λ r. r.id == id) rs

-- The seen ids are those of the history.
abbrev pub Agree : List ChatRecord → HashSet String → Type 0
Agree history seen = (id : String) → contains seen id ≡ has_id id history

-- The history has at most 300 records, no two with one id, and the seen ids are theirs.
abbrev pub IsLog : List ChatRecord → HashSet String → Type 0
IsLog history seen = (length history ≤ max_messages) × IsDistinct history × Agree history seen

contains-forget_ids :
    (seen : HashSet String) (rs : List ChatRecord) (id : String)
    → contains (forget_ids seen rs) id ≡ (contains seen id && not (has_id id rs))
unfolding HashSet.remove
contains-forget_ids seen [] id = ground arith
contains-forget_ids seen (r ∷ rs) id =
    ground
      (arith, contains-forget_ids (HashSet.delete seen r.id) rs id, contains-delete seen r.id id)

take-drop : (n : ℕ) (rs : List ChatRecord) → take n rs ++ drop n rs ≡ rs
take-drop zero rs = refl
take-drop (suc n) [] = refl
take-drop (suc n) (r ∷ rs) = ap (◌∷◌ r) (take-drop n rs)

length-drop : (n : ℕ) (rs : List ChatRecord) → length (drop n rs) ≡ length rs - n
length-drop zero rs = omega arith
length-drop (suc n) [] = omega arith
length-drop (suc n) (r ∷ rs) = omega (arith, length-drop n rs)

IsDistinct-drop : (n : ℕ) (rs : List ChatRecord) → IsDistinct rs → IsDistinct (drop n rs)
IsDistinct-drop zero rs d = d
IsDistinct-drop (suc n) [] d = tt
IsDistinct-drop (suc n) (r ∷ rs) d = IsDistinct-drop n rs d.1

other_id :
    (r : ChatRecord) (rs : List ChatRecord) (id : String)
    → all (λ s. r.id != s.id) rs ≡ true
    → (r.id == id) ≡ true
    → has_id id rs ≡ false
other_id r [] id h e = refl
other_id r (s ∷ ss) id h e = ground (
  arith,
  other_id r ss id,
  string_eq.beq_iff r.id id,
  string_eq.beq_iff s.id id,
  string_eq.beq_iff r.id s.id,
)

has_id-drop :
    (n : ℕ) (rs : List ChatRecord) (id : String)
    → IsDistinct rs
    → has_id id (drop n rs) ≡ (has_id id rs && not (has_id id (take n rs)))
has_id-drop zero rs id d = ground arith
has_id-drop (suc n) [] id d = refl
has_id-drop (suc n) (r ∷ rs) id d = ground (arith, other_id r rs id, has_id-drop n rs id d.1)

trimmed-IsLog :
    (history : List ChatRecord) (seen : HashSet String)
    → IsDistinct history
    → Agree history seen
    → let (kept, seen_kept) = trimmed history seen in IsLog kept seen_kept
trimmed-IsLog history seen d a = elim (Bool-cases (ltb max_messages (length history))) [
  | inr n ↦ rw (n, if◌then◌else◌) (ground arith, d, a)
  | inl y ↦
      let overflow = length history - max_messages in
      rw (y, if◌then◌else◌)
        (
          omega (arith, length-drop overflow history),
          IsDistinct-drop overflow history d,
          (λ id. ground (
            arith,
            contains-forget_ids seen (take overflow history) id,
            a id,
            has_id-drop overflow history id d,
          )),
        )
]

new_id :
    (history : List ChatRecord) (r : ChatRecord)
    → has_id r.id history ≡ false
    → all (λ s. r.id != s.id) history ≡ true
new_id [] r h = refl
new_id (s ∷ ss) r h =
    ground (arith, new_id ss r, string_eq.beq_iff s.id r.id, string_eq.beq_iff r.id s.id)

pub sorted-Permᴰ :
    (history : List ChatRecord) (r : ChatRecord)
    → Permᴰ (sort_history_causally (history ++ r ∷ [])) (r ∷ history)
sorted-Permᴰ history r =
    Permᴰ.trans (sort_history_causally-Permᴰ (history ++ r ∷ []))
      (Permᴰ.trans (Permᴰ.middle r history []) (Permᴰ.cons refl (Permᴰ.append-nil history)))

-- Inserting a record keeps the history to at most 300 records, no two with one id, and the seen ids to
-- theirs; what is pushed out can come in again. A record with a seen id changes nothing.
pub insert_record-IsLog :
    (history : List ChatRecord) (seen : HashSet String) (r : ChatRecord)
    → IsLog history seen
    → let (history', seen', is_new) = insert_record history seen r in
      IsLog history' seen'
      × (is_new ≡ not (has_id r.id history))
      × (is_new ≡ false → (history' ≡ history) × (seen' ≡ seen))
unfolding insert_record HashSet.insert contains
insert_record-IsLog history seen r log = elim (Bool-cases (contains seen r.id)) [
  | inl y ↦ rw (y, if◌then◌else◌) (log, ground (arith, log.2 r.id), (λ e. (refl, refl)))
  | inr n ↦
      let p = sorted-Permᴰ history r in
      let sorted = sort_history_causally (history ++ r ∷ []) in
      rw (n, if◌then◌else◌)
        (
          trimmed-IsLog sorted (r.id ∷ seen)
              (IsDistinct-Permᴰ (Permᴰ.symm p) (new_id history r (sym (log.2 r.id) ∙ n), log.1))
              (λ id. ground (arith, log.2 id, any-Permᴰ (λ s. s.id == id) p)),
          ground (arith, log.2 r.id),
          (λ e. absurd (cc)),
        )
]
