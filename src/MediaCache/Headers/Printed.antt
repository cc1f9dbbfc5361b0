-- ===== src/MediaCache/Headers/Printed.antt =====
-- src/media_cache.rs: the content range that a server prints is the one that is read.
use link_ear.Prelude.{
  ℕ, ◌≤◌, ◌<◌, ◌≡◌, refl, ap, ◌∙◌, Bool, true, false, not, Option, none, some, List, [], ◌∷◌, ◌++◌,
  arith, leb, leb→le, is_none_or, ◌==◌, string_eq, nat_eq, bool_eq, option_eq, length,
  length-append, all,
}
use link_ear.Prelude.Words.{u64_max}
use link_ear.Prelude.Text.{display}
use link_ear.Prelude.Codes.{codes, parse_u64, parse_u64-display, is_digit, all-digits}
use link_ear.MediaCache.Headers.{
  ContentRange, is_whitespace, trim, trim_start, trim_end, is_star, read_numbers, read_span,
  read_range, read_trimmed, split_once, parse_total, parse_content_range,
}

-- `bytes start-end/total`, with a star for an unknown total.
abbrev total_value : Option ℕ → List ℕ
total_value none = b'*' ∷ []
total_value (some n) = codes (display n)

abbrev span_value : ContentRange → List ℕ
span_value r = codes (display r.start) ++ b'-' ∷ codes (display r.end_inclusive)

abbrev range_value : ContentRange → List ℕ
range_value r = span_value r ++ b'/' ∷ total_value r.total

abbrev pub content_range_value : ContentRange → List ℕ
content_range_value r = codes "bytes " ++ range_value r

-- The numbers are u64.
abbrev pub IsU64 : ContentRange → Type 0
IsU64 r =
    (r.start ≤ u64_max)
    × (r.end_inclusive ≤ u64_max)
    × (is_none_or r.total (λ n. leb n u64_max) ≡ true)

abbrev without : ℕ → List ℕ → Bool
without sep cs = all (λ c. not (c == sep)) cs

split_once-append :
    (sep : ℕ) (xs ys : List ℕ)
    → without sep xs ≡ true
    → split_once sep (xs ++ sep ∷ ys) ≡ some (xs, ys)
split_once-append sep [] ys h = ground arith
split_once-append sep (x ∷ xs) ys h = ground (arith, split_once-append sep xs ys)

digits_without :
    (sep : ℕ) (cs : List ℕ) → sep < b'0' → all is_digit cs ≡ true → without sep cs ≡ true
digits_without sep [] s h = refl
digits_without sep (c ∷ cs) s h = ground (arith, digits_without sep cs)

without-append :
    (sep : ℕ) (xs ys : List ℕ)
    → without sep xs ≡ true
    → without sep ys ≡ true
    → without sep (xs ++ ys) ≡ true
without-append sep [] ys h k = k
without-append sep (x ∷ xs) ys h k = ground (arith, without-append sep xs ys)

trim_end-append :
    (xs ys : List ℕ) → 0 < length ys → trim_end ys ≡ ys → trim_end (xs ++ ys) ≡ xs ++ ys
trim_end-append [] ys l h = h
trim_end-append (x ∷ xs) ys l h = ground (arith, trim_end-append xs ys, length-append xs ys)

digit_is_solid : (c : ℕ) → is_digit c ≡ true → is_whitespace c ≡ false
unfolding is_whitespace
digit_is_solid c h = ground arith

trim_end-digits : (cs : List ℕ) → all is_digit cs ≡ true → trim_end cs ≡ cs
trim_end-digits [] h = refl
trim_end-digits (c ∷ cs) h = ground (arith, digit_is_solid c, trim_end-digits cs)

first_is_solid : is_whitespace b'b' ≡ false
unfolding is_whitespace
first_is_solid = refl

slash_is_solid : is_whitespace b'/' ≡ false
unfolding is_whitespace
slash_is_solid = refl

star_is_solid : is_whitespace b'*' ≡ false
unfolding is_whitespace
star_is_solid = refl

total_solid :
    (total : Option ℕ)
    → is_none_or total (λ n. leb n u64_max) ≡ true
    → trim_end (total_value total) ≡ total_value total
total_solid none h = rw star_is_solid
total_solid (some n) h = trim_end-digits (codes (display n)) (all-digits n (leb→le n u64_max h))

slash_solid : (cs : List ℕ) → trim_end cs ≡ cs → trim_end (b'/' ∷ cs) ≡ b'/' ∷ cs
slash_solid cs h = ground (arith, slash_is_solid)

trim-value : (r : ContentRange) → IsU64 r → trim (content_range_value r) ≡ content_range_value r
unfolding trim
trim-value r u =
    let total = total_value r.total in
    let tail = slash_solid total (total_solid r.total u.2) in
    let range = trim_end-append (span_value r) (b'/' ∷ total) (omega arith) tail in
    let started : trim_start (content_range_value r) ≡ content_range_value r = rw first_is_solid in
    ap trim_end started
    ∙ trim_end-append (codes "bytes ") (range_value r)
        (omega (arith, length-append (span_value r) (b'/' ∷ total))) range

digits_no_star : (cs : List ℕ) → all is_digit cs ≡ true → is_star cs ≡ false
digits_no_star [] h = refl
digits_no_star (c ∷ []) h = ground arith
digits_no_star (c ∷ d ∷ cs) h = refl

parse_total-value :
    (total : Option ℕ)
    → is_none_or total (λ n. leb n u64_max) ≡ true
    → parse_total (total_value total) ≡ some total
parse_total-value none h = refl
parse_total-value (some n) h =
    let small = leb→le n u64_max h in
    ground
      (arith, digits_no_star (codes (display n)) (all-digits n small), parse_u64-display n small)

span_without : (r : ContentRange) → IsU64 r → without b'/' (span_value r) ≡ true
span_without r u =
    without-append b'/' (codes (display r.start)) (b'-' ∷ codes (display r.end_inclusive))
      (digits_without b'/' (codes (display r.start)) (omega arith) (all-digits r.start u.0))
      (digits_without b'/' (codes (display r.end_inclusive)) (omega arith)
        (all-digits r.end_inclusive u.1))

read_range_lem :
    (range span total : List ℕ)
    → split_once b'/' range ≡ some (span, total)
    → read_range range ≡ read_span span total
read_range_lem range span total h = ground arith

read_span_lem :
    (span start end total : List ℕ)
    → split_once b'-' span ≡ some (start, end)
    → read_span span total ≡ read_numbers start end total
read_span_lem span start end total h = ground arith

read_numbers_lem :
    (start end total : List ℕ) (r : ContentRange)
    → parse_u64 start ≡ some r.start
    → parse_u64 end ≡ some r.end_inclusive
    → parse_total total ≡ some r.total
    → read_numbers start end total ≡ some r
read_numbers_lem start end total r s e t = ground arith

-- A content range of u64 numbers, printed with a star for an unknown total, is parsed back.
pub parse-content_range_value :
    (r : ContentRange) → IsU64 r → parse_content_range (content_range_value r) ≡ some r
unfolding parse_content_range
parse-content_range_value r u =
    let total = split_once-append b'/' (span_value r) (total_value r.total) (span_without r u) in
    let span =
      split_once-append b'-' (codes (display r.start)) (codes (display r.end_inclusive))
        (digits_without b'-' (codes (display r.start)) (omega arith) (all-digits r.start u.0)) in
    ap read_trimmed (trim-value r u)
    ∙ read_range_lem (range_value r) (span_value r) (total_value r.total) total
    ∙ read_span_lem (span_value r) (codes (display r.start)) (codes (display r.end_inclusive))
        (total_value r.total) span
    ∙ read_numbers_lem (codes (display r.start)) (codes (display r.end_inclusive))
        (total_value r.total) r (parse_u64-display r.start u.0)
        (parse_u64-display r.end_inclusive u.1) (parse_total-value r.total u.2)
