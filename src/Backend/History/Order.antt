-- ===== src/Backend/History/Order.antt =====
-- src/backend.rs: chat_fallback_order is a total order, and so a sort by it is the same whatever came first.
use link_ear.Prelude.{
  String, ◌≡◌, refl, sym, ap, ◌∙◌, inl, inr, Bool, true, false, not, ◌&&◌, ◌||◌, List, [], ◌∷◌,
  arith, if◌then◌else◌, Bool-cases, ◌==◌, ◌!=◌, string_eq, nat_eq, bool_eq, option_eq, all, filter,
}
use link_ear.Prelude.Perm.{all-filter, all-Permᴰ}
use link_ear.Core.Types.{ChatRecord}
use link_ear.Core.Clock.{normalize_timestamp_micros}
use link_ear.Prelude.Int.{ℤ, ltb_ℤ, int_eq}
use link_ear.Prelude.Text.{str_lt, str_lt_irrefl, str_lt_trans, str_lt_total}
use link_ear.Backend.History.{
  Entry, chat_fallback_less, insert_by_fallback, sort_by_fallback, records,
}
use mathlib.Core.List.{Permᴰ}

abbrev lex : ℤ → String → ℤ → String → Bool
lex i s j t = ltb_ℤ i j || ((i == j) && str_lt s t)

lex_trans :
    (i j k : ℤ) (s t u : String) → lex i s j t ≡ true → lex j t k u ≡ true → lex i s k u ≡ true
lex_trans i j k s t u h l = ground (arith, str_lt_trans s t u)

lex_irrefl : (i : ℤ) (s : String) → lex i s i s ≡ false
lex_irrefl i s = ground (arith, str_lt_irrefl s)

lex_total : (i j : ℤ) (s t : String) → lex i s j t ≡ false → lex j t i s ≡ false → s ≡ t
lex_total i j s t h l = str_lt_total s t (ground arith) (ground arith)

not_lt_trans : (s t u : String) → str_lt s t ≡ false → str_lt t u ≡ false → str_lt s u ≡ false
not_lt_trans s t u h l = elim (Bool-cases (str_lt s u)) [
  | inr n ↦ n
  | inl y ↦ elim (Bool-cases (str_lt t s)) [
    | inl z ↦ absurd (cc (str_lt_trans t s u z y, l))
    | inr z ↦ ap (λ v. str_lt v u) (str_lt_total s t h z) ∙ l
  ]
]

lex_not_trans :
    (i j k : ℤ) (s t u : String) → lex i s j t ≡ false → lex j t k u ≡ false → lex i s k u ≡ false
lex_not_trans i j k s t u h l = ground (arith, not_lt_trans s t u)

pub less_trans :
    (a b c : ChatRecord)
    → chat_fallback_less a b ≡ true
    → chat_fallback_less b c ≡ true
    → chat_fallback_less a c ≡ true
unfolding chat_fallback_less
less_trans a b c h l =
    lex_trans (normalize_timestamp_micros a.sent_at) (normalize_timestamp_micros b.sent_at)
      (normalize_timestamp_micros c.sent_at) a.id b.id c.id h l

pub not_less_trans :
    (a b c : ChatRecord)
    → chat_fallback_less a b ≡ false
    → chat_fallback_less b c ≡ false
    → chat_fallback_less a c ≡ false
unfolding chat_fallback_less
not_less_trans a b c h l =
    lex_not_trans (normalize_timestamp_micros a.sent_at) (normalize_timestamp_micros b.sent_at)
      (normalize_timestamp_micros c.sent_at) a.id b.id c.id h l

pub less_irrefl : (a : ChatRecord) → chat_fallback_less a a ≡ false
unfolding chat_fallback_less
less_irrefl a = lex_irrefl (normalize_timestamp_micros a.sent_at) a.id

pub less_total :
    (a b : ChatRecord)
    → chat_fallback_less a b ≡ false
    → chat_fallback_less b a ≡ false
    → a.id ≡ b.id
unfolding chat_fallback_less
less_total a b h l =
    lex_total (normalize_timestamp_micros a.sent_at) (normalize_timestamp_micros b.sent_at) a.id
      b.id h l

-- Of two records with different ids exactly one comes first.
less_one_way :
    (a b : ChatRecord)
    → (a.id == b.id) ≡ false
    → chat_fallback_less a b ≡ not (chat_fallback_less b a)
less_one_way a b d =
    ground (arith, less_total a b, string_eq.beq_iff a.id b.id, less_trans a b a, less_irrefl a)

-- The records of sorted entries, as a sort of the records.
abbrev pub insert_record_sorted : ChatRecord → List ChatRecord → List ChatRecord
insert_record_sorted r [] = r ∷ []
insert_record_sorted r (x ∷ xs) =
    let rest = x ∷ insert_record_sorted r xs in if chat_fallback_less x r then rest else r ∷ x ∷ xs

abbrev pub sort_records : List ChatRecord → List ChatRecord
sort_records [] = []
sort_records (r ∷ rs) = insert_record_sorted r (sort_records rs)

records-insert :
    (e : Entry) (es : List Entry)
    → records (insert_by_fallback e es) ≡ insert_record_sorted e.1 (records es)
records-insert e [] = refl
records-insert e (x ∷ xs) = elim (Bool-cases (chat_fallback_less x.1 e.1)) [
  | inl h ↦ rw (h, if◌then◌else◌) (ap (◌∷◌ x.1) (records-insert e xs))
  | inr h ↦ rw (h, if◌then◌else◌) refl
]

pub records-sort : (es : List Entry) → records (sort_by_fallback es) ≡ sort_records (records es)
records-sort [] = refl
records-sort (e ∷ es) =
    records-insert e (sort_by_fallback es) ∙ ap (insert_record_sorted e.1) (records-sort es)

insert_twice :
    (a b : ChatRecord) (rs : List ChatRecord)
    → (a.id == b.id) ≡ false
    → insert_record_sorted a (insert_record_sorted b rs)
      ≡ insert_record_sorted b (insert_record_sorted a rs)
insert_twice a b [] d = ground (arith, less_one_way a b d)
insert_twice a b (z ∷ zs) d =
    ground (arith, less_one_way a b d, less_trans z a b, less_trans z b a, insert_twice a b zs d)

-- No two records have one id.
abbrev pub IsDistinct : List ChatRecord → Type 0
IsDistinct [] = Unit
IsDistinct (r ∷ rs) = (all (λ s. r.id != s.id) rs ≡ true) × IsDistinct rs

pub IsDistinct-filter :
    (p : ChatRecord → Bool) (rs : List ChatRecord) → IsDistinct rs → IsDistinct (filter p rs)
IsDistinct-filter p [] d = tt
IsDistinct-filter p (r ∷ rs) d = elim (Bool-cases (p r)) [
  | inl h ↦
      rw (h, if◌then◌else◌) (all-filter p (λ s. r.id != s.id) rs d.0, IsDistinct-filter p rs d.1)
  | inr h ↦ rw (h, if◌then◌else◌) (IsDistinct-filter p rs d.1)
]

pub IsDistinct-Permᴰ : {rs ss : List ChatRecord} → Permᴰ rs ss → IsDistinct rs → IsDistinct ss
IsDistinct-Permᴰ Permᴰ.nil d = tt
IsDistinct-Permᴰ (Permᴰ.cons {a} {b} {l₁} {l₂} e p) d = (
  ap (λ r. all (λ s. r.id != s.id) l₂) (sym e) ∙ sym (all-Permᴰ (λ s. a.id != s.id) p) ∙ d.0,
  IsDistinct-Permᴰ p d.1,
)
IsDistinct-Permᴰ (Permᴰ.swap {a} {b} {a'} {b'} {l} e f) d = (
  ground (
    arith,
    ap (λ r. all (λ s. r.id != s.id) l) f,
    ap (λ r. r.id) e,
    ap (λ r. r.id) f,
    string_eq.beq_iff a.id b.id,
    string_eq.beq_iff a'.id b'.id,
  ),
  (ap (λ r. all (λ s. r.id != s.id) l) (sym e) ∙ ground arith, d.1.1),
)
IsDistinct-Permᴰ (Permᴰ.trans p q) d = IsDistinct-Permᴰ q (IsDistinct-Permᴰ p d)

pub sort_records-Permᴰ :
    {rs ss : List ChatRecord} → Permᴰ rs ss → IsDistinct rs → sort_records rs ≡ sort_records ss
sort_records-Permᴰ Permᴰ.nil d = refl
sort_records-Permᴰ (Permᴰ.cons e p) d = cc (e, sort_records-Permᴰ p d.1)
sort_records-Permᴰ (Permᴰ.swap {a} {b} {a'} {b'} {l} e f) d =
    insert_twice a b (sort_records l) (ground arith) ∙ cc
sort_records-Permᴰ (Permᴰ.trans p q) d =
    sort_records-Permᴰ p d ∙ sort_records-Permᴰ q (IsDistinct-Permᴰ p d)
