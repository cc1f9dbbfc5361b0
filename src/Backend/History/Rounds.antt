-- ===== src/Backend/History/Rounds.antt =====
-- src/backend.rs: the entries that sort_history_causally takes in a round pass one test.
use link_ear.Prelude.{
  ℕ, suc, ◌≤◌, ◌<◌, ◌≡◌, refl, sym, ap, ◌∙◌, inl, inr, Bool, false, List, [], ◌∷◌, arith,
  if◌then◌else◌, Bool-cases, ◌==◌, string_eq, nat_eq, bool_eq, option_eq, any, filter,
}
use link_ear.Prelude.Perm.{In, here, there, filter_none, skip_second}
use link_ear.Core.Types.{ChatRecord}
use link_ear.Backend.History.{
  Entry, chat_fallback_less, min_by, insert_by_fallback, sort_by_fallback, is_ready, enumerate,
}
use mathlib.Core.List.{Permᴰ}
use mathlib.Core.List.Permᴰ

-- The places of the entries ascend.
abbrev pub Ascend : ℕ → List Entry → Type 0
Ascend bound [] = Unit
Ascend bound (e ∷ es) = (bound ≤ e.0) × Ascend (suc e.0) es

Ascend-le : (b c : ℕ) (es : List Entry) → b ≤ c → Ascend c es → Ascend b es
Ascend-le b c [] l h = tt
Ascend-le b c (e ∷ es) l h = (omega (arith, h.0), h.1)

pub Ascend-filter :
    (p : Entry → Bool) (b : ℕ) (es : List Entry) → Ascend b es → Ascend b (filter p es)
Ascend-filter p b [] h = tt
Ascend-filter p b (e ∷ es) h = elim (Bool-cases (p e)) [
  | inl y ↦ rw (y, if◌then◌else◌) (h.0, Ascend-filter p (suc e.0) es h.1)
  | inr n ↦
      rw (n, if◌then◌else◌)
        (Ascend-le b (suc e.0) (filter p es) (omega (arith, h.0))
          (Ascend-filter p (suc e.0) es h.1))
]

pub Ascend-enumerate : (b : ℕ) (rs : List ChatRecord) → Ascend b (enumerate b rs)
Ascend-enumerate b [] = tt
Ascend-enumerate b (r ∷ rs) = (omega arith, Ascend-enumerate (suc b) rs)

Ascend-In : (b : ℕ) (es : List Entry) (e : Entry) → Ascend b es → In e es → b ≤ e.0
Ascend-In b [] e h i = elim i [ ]
Ascend-In b (x ∷ es) e h (here p) = omega (arith, h.0, ap (λ f. f.0) p)
Ascend-In b (x ∷ es) e h (there i) = omega (arith, h.0, Ascend-In (suc x.0) es e h.1 i)

-- Entries with one place are one entry.
pub one_entry :
    (b : ℕ) (es : List Entry) (e f : Entry) → Ascend b es → In e es → In f es → e.0 ≡ f.0 → e ≡ f
one_entry b [] e f h i j p = elim i [ ]
one_entry b (x ∷ es) e f h (here i) (here j) p = i ∙ sym j
one_entry b (x ∷ es) e f h (here i) (there j) p =
    absurd (omega (arith, p, ap (λ f. f.0) i, Ascend-In (suc x.0) es f h.1 j))
one_entry b (x ∷ es) e f h (there i) (here j) p =
    absurd (omega (arith, p, ap (λ f. f.0) j, Ascend-In (suc x.0) es e h.1 i))
one_entry b (x ∷ es) e f h (there i) (there j) p = one_entry (suc x.0) es e f h.1 i j p

not_below : (b n : ℕ) (es : List Entry) → Ascend b es → n < b → any (λ f. f.0 == n) es ≡ false
not_below b n [] h l = refl
not_below b n (e ∷ es) h l = ground (arith, not_below (suc e.0) n es)

pub filter-place :
    (b : ℕ) (es : List Entry) (m : Entry)
    → Ascend b es
    → In m es
    → filter (λ f. f.0 == m.0) es ≡ m ∷ []
filter-place b [] m h i = elim i [ ]
filter-place b (x ∷ es) m h (here p) =
    let none_else =
      filter_none (λ f. f.0 == m.0) es
        (not_below (suc x.0) m.0 es h.1 (omega (arith, ap (λ f. f.0) p))) in
    ground (arith, none_else, p, ap (λ f. f.0) p)
filter-place b (x ∷ es) m h (there i) =
    ground (arith, filter-place (suc x.0) es m, Ascend-In (suc x.0) es m h.1 i)

-- The test that the entries of a round pass.
abbrev pub picked : Entry → List Entry → Entry → Bool
picked e es f =
    if any (is_ready (e ∷ es)) (e ∷ es) then is_ready (e ∷ es) f else f.0 == (min_by e es).0

pub min_by-In : (e : Entry) (es : List Entry) → In (min_by e es) (e ∷ es)
min_by-In e [] = here refl
min_by-In e (x ∷ xs) = elim (Bool-cases (chat_fallback_less x.1 e.1)) [
  | inl h ↦ rw (h, if◌then◌else◌) (there (min_by-In x xs))
  | inr h ↦ rw (h, if◌then◌else◌) (skip_second e x xs (min_by e xs) (min_by-In e xs))
]

pub insert_by_fallback-Permᴰ :
    (e : Entry) (es : List Entry) → Permᴰ (insert_by_fallback e es) (e ∷ es)
insert_by_fallback-Permᴰ e [] = Permᴰ.refl (e ∷ [])
insert_by_fallback-Permᴰ e (x ∷ xs) = elim (Bool-cases (chat_fallback_less x.1 e.1)) [
  | inl h ↦
      rw (h, if◌then◌else◌)
        (Permᴰ.trans (Permᴰ.cons refl (insert_by_fallback-Permᴰ e xs)) (Permᴰ.swap refl refl))
  | inr h ↦ rw (h, if◌then◌else◌) (Permᴰ.refl (e ∷ x ∷ xs))
]

pub sort_by_fallback-Permᴰ : (es : List Entry) → Permᴰ (sort_by_fallback es) es
sort_by_fallback-Permᴰ [] = Permᴰ.nil
sort_by_fallback-Permᴰ (e ∷ es) =
    Permᴰ.trans (insert_by_fallback-Permᴰ e (sort_by_fallback es))
      (Permᴰ.cons refl (sort_by_fallback-Permᴰ es))
