-- ===== src/Prelude/Codes.antt =====
-- Text as its code points, and decimal numbers read from them as `str::parse::<u64>` does.
use Prim.Native.Char.{code}
use text.Mathlib.TextLemmas.{nil-append, cons-append}
use Prim.Native.String.{String, ◌++◌ as str_append}
use link_ear.Prelude.{
  ℕ, zero, suc, ◌+◌, ◌-◌, ◌*◌, ◌/◌, ◌%◌, ◌≤◌, ◌<◌, String, ◌≡◌, refl, ap, ◌∙◌, inl, inr, Bool, true,
  ◌&&◌, Option, none, some, List, [], ◌∷◌, ◌++◌, arith, ltb, leb, ltb→lt, if◌then◌else◌, Bool-cases,
  is_some_and, ◌==◌, string_eq, nat_eq, bool_eq, option_eq, length, get_elem?, length-append, all,
}
use link_ear.Prelude.Words.{u64_max}
use link_ear.Prelude.Text.{display, digit, decimal}

abbrev pub codes : String → List ℕ
codes String.[] = []
codes (String.◌∷◌ c s) = code c ∷ codes s

pub codes-append : (s t : String) → codes (str_append s t) ≡ codes s ++ codes t
codes-append String.[] t = ap codes (nil-append t)
codes-append (String.◌∷◌ c s) t =
    ap codes (cons-append c s t) ∙ ap (λ r. code c ∷ r) (codes-append s t)

abbrev pub is_digit : ℕ → Bool
is_digit c = leb b'0' c && leb c b'9'

-- The digits that are left, with the value of those before them; `none` at another character or past u64.
abbrev pub digits_from : ℕ → List ℕ → Option ℕ
digits_from acc [] = some acc
digits_from acc (c ∷ cs) =
    let value = acc * 10 + (c - b'0') in
    let rest = digits_from value cs in if is_digit c && leb value u64_max then rest else none

-- A text is not empty, and a plus sign is allowed in front of digits.
unfoldable pub parse_u64 : List ℕ → Option ℕ
parse_u64 [] = none
parse_u64 (c ∷ cs) =
    if c == b'+'
    then (if is_some_and (get_elem? cs 0) (λ d. true) then digits_from 0 cs else none)
    else digits_from 0 (c ∷ cs)

-- The least number with more digits than the fuel writes.
abbrev limit : ℕ → ℕ
limit zero = 10
limit (suc f) = 10 * limit f

codes-digit : (d : ℕ) → d < 10 → codes (digit d) ≡ (b'0' + d) ∷ []
codes-digit zero h = refl
codes-digit (suc zero) h = refl
codes-digit (suc (suc zero)) h = refl
codes-digit (suc (suc (suc zero))) h = refl
codes-digit (suc (suc (suc (suc zero)))) h = refl
codes-digit (suc (suc (suc (suc (suc zero))))) h = refl
codes-digit (suc (suc (suc (suc (suc (suc zero)))))) h = refl
codes-digit (suc (suc (suc (suc (suc (suc (suc zero))))))) h = refl
codes-digit (suc (suc (suc (suc (suc (suc (suc (suc zero)))))))) h = refl
codes-digit (suc (suc (suc (suc (suc (suc (suc (suc (suc zero))))))))) h = refl
codes-digit (suc (suc (suc (suc (suc (suc (suc (suc (suc (suc d)))))))))) h = absurd (omega arith)

digits_from-append :
    (acc n : ℕ) (xs ys : List ℕ)
    → digits_from acc xs ≡ some n
    → digits_from acc (xs ++ ys) ≡ digits_from n ys
digits_from-append acc n [] ys h = cc
digits_from-append acc n (x ∷ xs) ys h =
    ground (arith, digits_from-append (acc * 10 + (x - b'0')) n xs ys)

digits_from-digit :
    (acc d : ℕ)
    → d < 10
    → acc * 10 + d ≤ u64_max
    → digits_from acc (codes (digit d)) ≡ some (acc * 10 + d)
digits_from-digit acc d h u = rw (codes-digit d h) (ground arith)

digits_from-decimal :
    (f n : ℕ) → n < limit f → n ≤ u64_max → digits_from 0 (codes (decimal f n)) ≡ some n
unfolding decimal
digits_from-decimal zero n h u = digits_from-digit 0 n h (omega arith) ∙ ap some (omega arith)
digits_from-decimal (suc f) n h u = elim (Bool-cases (ltb n 10)) [
  | inl small ↦
      rw small (digits_from-digit 0 n (ltb→lt n 10 small) (omega arith) ∙ ap some (omega arith))
  | inr large ↦
      let front = decimal f (n / 10) in
      let last = codes (digit (n % 10)) in
      let split =
        digits_from-append 0 (n / 10) (codes front) last
          (digits_from-decimal f (n / 10) (omega arith) (omega arith)) in
      let read = digits_from-digit (n / 10) (n % 10) (omega arith) (omega arith) in
      rw large (
        ap (digits_from 0) (codes-append front (digit (n % 10)))
        ∙ split
        ∙ read
        ∙ ap some (omega arith))
]

length-codes-digit : (d : ℕ) → d < 10 → length (codes (digit d)) ≡ 1
length-codes-digit d h = ap length (codes-digit d h)

length-codes-decimal : (f n : ℕ) → n < limit f → 0 < length (codes (decimal f n))
unfolding decimal
length-codes-decimal zero n h = omega (arith, length-codes-digit n h)
length-codes-decimal (suc f) n h = ground (
  arith,
  length-codes-digit n,
  length-codes-digit (n % 10),
  codes-append (decimal f (n / 10)) (digit (n % 10)),
  length-append (codes (decimal f (n / 10))) (codes (digit (n % 10))),
)

parse_digits :
    (cs : List ℕ) (n : ℕ) → 0 < length cs → digits_from 0 cs ≡ some n → parse_u64 cs ≡ some n
unfolding parse_u64
parse_digits [] n l h = elim l [ ]
parse_digits (c ∷ cs) n l h = ground arith

-- A u64 that is displayed is read back.
pub parse_u64-display : (n : ℕ) → n ≤ u64_max → parse_u64 (codes (display n)) ≡ some n
unfolding display
parse_u64-display n u =
    parse_digits (codes (decimal 20 n)) n (length-codes-decimal 20 n (omega arith))
      (digits_from-decimal 20 n (omega arith) u)

digits_from-All : (acc n : ℕ) (cs : List ℕ) → digits_from acc cs ≡ some n → all is_digit cs ≡ true
digits_from-All acc n [] h = refl
digits_from-All acc n (c ∷ cs) h = ground (arith, digits_from-All (acc * 10 + (c - b'0')) n cs)

-- A displayed u64 is made of digits.
pub all-digits : (n : ℕ) → n ≤ u64_max → all is_digit (codes (display n)) ≡ true
unfolding display
all-digits n u =
    digits_from-All 0 n (codes (decimal 20 n)) (digits_from-decimal 20 n (omega arith) u)
