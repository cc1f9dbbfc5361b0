-- ===== src/Backend/History/Alike.antt =====
-- src/backend.rs: peers that hold the same records sort them alike.
use link_ear.Prelude.{
  ℕ, zero, suc, ◌≡◌, refl, sym, ap, ◌∙◌, inl, inr, true, false, not, List, [], ◌∷◌, ◌++◌, arith,
  if◌then◌else◌, Bool-cases, ◌==◌, string_eq, nat_eq, bool_eq, option_eq, length, any, all, filter,
}
use link_ear.Prelude.Perm.{
  In, here, there, all-In, filter-Permᴰ, any-Permᴰ, length-Permᴰ, In-Permᴰ, skip_second,
}
use link_ear.Core.Types.{ChatRecord}
use link_ear.Backend.History.{chat_depends_on, chat_fallback_less, sort_history_causally}
use link_ear.Backend.History.Order.{
  sort_records, IsDistinct, IsDistinct-filter, IsDistinct-Permᴰ, sort_records-Permᴰ, less_total,
  less_trans, less_irrefl, not_less_trans,
}
use mathlib.Core.List.{Permᴰ}
use mathlib.Core.List.Permᴰ
use link_ear.Backend.History.Records.{
  min_record, is_free, chosen, record_rounds, sort_history_causally-record_rounds,
}

min_record-In : (r : ChatRecord) (rs : List ChatRecord) → In (min_record r rs) (r ∷ rs)
min_record-In r [] = here refl
min_record-In r (x ∷ xs) = elim (Bool-cases (chat_fallback_less x r)) [
  | inl h ↦ rw (min_record, h, if◌then◌else◌) (there (min_record-In x xs))
  | inr h ↦
      rw (min_record, h, if◌then◌else◌) (skip_second r x xs (min_record r xs) (min_record-In r xs))
]

-- No record comes before the least.
min_record-least :
    (r : ChatRecord) (rs : List ChatRecord) (m : ChatRecord)
    → m ≡ min_record r rs
    → all (λ s. not (chat_fallback_less s m)) (r ∷ rs) ≡ true
min_record-least r [] m e = ground (arith, ap (λ t. chat_fallback_less r t) e, less_irrefl r)
min_record-least r (x ∷ xs) m e = elim (Bool-cases (chat_fallback_less x r)) [
  | inl h ↦
      let rest = min_record-least x xs m (e ∙ ap (λ b. min_record (if b then x else r) xs) h) in
      ground (arith, rest, less_trans x r m)
  | inr h ↦
      let rest = min_record-least r xs m (e ∙ ap (λ b. min_record (if b then x else r) xs) h) in
      ground (arith, rest, not_less_trans x r m)
]

not_before :
    (a r : ChatRecord) (rs : List ChatRecord)
    → In a (r ∷ rs)
    → chat_fallback_less a (min_record r rs) ≡ false
not_before a r rs i =
    let m = min_record r rs in
    ground (
      arith,
      all-In (λ s. not (chat_fallback_less s m)) (r ∷ rs) a (min_record-least r rs m refl) i,
    )

same_least :
    (r s : ChatRecord) (rs ss : List ChatRecord)
    → Permᴰ (r ∷ rs) (s ∷ ss)
    → (min_record r rs).id ≡ (min_record s ss).id
same_least r s rs ss p =
    let m = min_record r rs in
    let n = min_record s ss in
    less_total m n (not_before m s ss (In-Permᴰ m p (min_record-In r rs)))
      (not_before n r rs (In-Permᴰ n (Permᴰ.symm p) (min_record-In s ss)))

same_free : (rs ss : List ChatRecord) → Permᴰ rs ss → is_free rs ≡ is_free ss
same_free rs ss p = λ i r. not (any-Permᴰ (chat_depends_on r) p i)

-- What is chosen does not hang on the order of the records.
same_choice :
    (r s : ChatRecord) (rs ss : List ChatRecord)
    → Permᴰ (r ∷ rs) (s ∷ ss)
    → chosen r rs ≡ chosen s ss
same_choice r s rs ss p =
    let free = same_free (r ∷ rs) (s ∷ ss) p in
    let some_free = any-Permᴰ (is_free (r ∷ rs)) p ∙ ap (λ f. any f (s ∷ ss)) free in
    λ i t. if some_free i then free i t else t.id == same_least r s rs ss p i

record_rounds-Permᴰ :
    (fuel : ℕ) (rs ss : List ChatRecord)
    → Permᴰ rs ss
    → IsDistinct rs
    → record_rounds fuel rs ≡ record_rounds fuel ss
record_rounds-Permᴰ zero rs ss p d = refl
record_rounds-Permᴰ (suc fuel) [] [] p d = refl
record_rounds-Permᴰ (suc fuel) [] (s ∷ ss) p d = absurd (omega (arith, length-Permᴰ p))
record_rounds-Permᴰ (suc fuel) (r ∷ rs) [] p d = absurd (omega (arith, length-Permᴰ p))
record_rounds-Permᴰ (suc fuel) (r ∷ rs) (s ∷ ss) p d =
    let c = chosen r rs in
    let choice = same_choice r s rs ss p in
    ap (λ now. now ++ record_rounds fuel (filter (λ t. not (c t)) (r ∷ rs)))
      (sort_records-Permᴰ (filter-Permᴰ c p) (IsDistinct-filter c (r ∷ rs) d))
    ∙ ap (λ rest. sort_records (filter c (s ∷ ss)) ++ rest)
        (record_rounds-Permᴰ fuel (filter (λ t. not (c t)) (r ∷ rs))
          (filter (λ t. not (c t)) (s ∷ ss)) (filter-Permᴰ (λ t. not (c t)) p)
          (IsDistinct-filter (λ t. not (c t)) (r ∷ rs) d))
    ∙ ap
        (λ f.
          sort_records (filter f (s ∷ ss)) ++ record_rounds fuel (filter (λ t. not (f t)) (s ∷ ss)))
        choice

-- Two peers that hold the same records, no two with one id, show them in the same order, in whatever order
-- the records came in.
pub sort_history_causally-alike :
    (history other : List ChatRecord)
    → Permᴰ history other
    → IsDistinct history
    → sort_history_causally history ≡ sort_history_causally other
sort_history_causally-alike history other p d =
    sort_history_causally-record_rounds history d
    ∙ record_rounds-Permᴰ (length history) history other p d
    ∙ ap (λ n. record_rounds n other) (length-Permᴰ p)
    ∙ sym (sort_history_causally-record_rounds other (IsDistinct-Permᴰ p d))
