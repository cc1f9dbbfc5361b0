-- ===== src/MediaCache/Headers.antt =====
-- src/media_cache.rs: what the server's headers say of the media.
pub mod Printed
pub mod Ranges
use link_ear.Prelude.{
  ℕ, ◌+◌, String, Bool, true, false, ◌&&◌, ◌||◌, Option, none, some, List, [], ◌∷◌, leb,
  if◌then◌else◌, is_some, is_some_and, ◌==◌, string_eq, nat_eq, bool_eq, option_eq, length,
}
use link_ear.Prelude.Codes.{codes, parse_u64}

pub record ContentRange : Type 0 where
  pub start : ℕ
  pub end_inclusive : ℕ
  pub total : Option ℕ

pub record RangeProbe : Type 0 where
  pub supports_ranges : Bool
  pub total_bytes : Option ℕ

-- `char::is_whitespace`.
pub is_whitespace : ℕ → Bool
is_whitespace c =
    (leb 9 c && leb c 13)
    || (c == 32)
    || (c == 0x85)
    || (c == 0xa0)
    || (c == 0x1680)
    || (leb 0x2000 c && leb c 0x200a)
    || (c == 0x2028)
    || (c == 0x2029)
    || (c == 0x202f)
    || (c == 0x205f)
    || (c == 0x3000)

abbrev pub trim_start : List ℕ → List ℕ
trim_start [] = []
trim_start (c ∷ cs) = let rest = trim_start cs in if is_whitespace c then rest else c ∷ cs

-- A character is dropped if it and all behind it are white.
abbrev pub trim_end : List ℕ → List ℕ
trim_end [] = []
trim_end (c ∷ cs) =
    let rest = trim_end cs in if is_whitespace c && (length rest == 0) then [] else c ∷ rest

-- `str::trim`.
unfoldable pub trim : List ℕ → List ℕ
trim cs = trim_end (trim_start cs)

abbrev pub strip_prefix : List ℕ → List ℕ → Option (List ℕ)
strip_prefix [] cs = some cs
strip_prefix (p ∷ ps) [] = none
strip_prefix (p ∷ ps) (c ∷ cs) = let rest = strip_prefix ps cs in if p == c then rest else none

-- `split_once` at a character: what stands before its first occurrence and behind it.
abbrev pub split_once : ℕ → List ℕ → Option (List ℕ × List ℕ)
split_once sep [] = none
split_once sep (c ∷ cs) =
    let rest = split_once sep cs in
    if c == sep
    then some ([], cs)
    else elim rest [ none ↦ none | some (before, behind) ↦ some (c ∷ before, behind) ]

abbrev is_star : List ℕ → Bool
is_star (c ∷ []) = c == b'*'
is_star _ = false

-- The inner result is that of the total: `some none` for `*`.
abbrev parse_total : List ℕ → Option (Option ℕ)
parse_total cs =
    if is_star cs then some none else elim (parse_u64 cs) [ none ↦ none | some n ↦ some (some n) ]

abbrev read_numbers : List ℕ → List ℕ → List ℕ → Option ContentRange
read_numbers start end total = elim (parse_u64 start) [
  | none ↦ none
  | some s ↦ elim (parse_u64 end) [
    | none ↦ none
    | some e ↦ elim (parse_total total) [
      | none ↦ none
      | some t ↦ some (record { start = s; end_inclusive = e; total = t })
    ]
  ]
]

abbrev read_span : List ℕ → List ℕ → Option ContentRange
read_span span total = elim (split_once b'-' span) [
  | none ↦ none
  | some (start, end) ↦ read_numbers start end total
]

abbrev read_range : List ℕ → Option ContentRange
read_range range = elim (split_once b'/' range) [
  | none ↦ none
  | some (span, total) ↦ read_span span total
]

abbrev read_trimmed : List ℕ → Option ContentRange
read_trimmed value = elim (strip_prefix (codes "bytes ") value) [
  | none ↦ none
  | some range ↦ read_range range
]

unfoldable pub parse_content_range : List ℕ → Option ContentRange
unfolding trim
parse_content_range value = read_trimmed (trim value)

abbrev pub lower : ℕ → ℕ
lower c = if leb b'A' c && leb c b'Z' then c + 32 else c

abbrev pub eq_ignore_ascii_case : List ℕ → List ℕ → Bool
eq_ignore_ascii_case [] [] = true
eq_ignore_ascii_case [] (d ∷ ds) = false
eq_ignore_ascii_case (c ∷ cs) [] = false
eq_ignore_ascii_case (c ∷ cs) (d ∷ ds) = (lower c == lower d) && eq_ignore_ascii_case cs ds

-- A header by its name: no header, or its value, which may be no text.
abbrev pub HeaderMap : Type 0
HeaderMap = String → Option (Option (List ℕ))

abbrev pub to_str : Option (Option (List ℕ)) → Option (List ℕ)
to_str none = none
to_str (some v) = v

abbrev total_of : Option (List ℕ) → Option ℕ
total_of none = none
total_of (some v) = elim (parse_content_range v) [ none ↦ none | some r ↦ r.total ]

abbrev length_of : Option (List ℕ) → Option ℕ
length_of none = none
length_of (some v) = parse_u64 v

unfoldable pub parse_range_probe : HeaderMap → RangeProbe
unfolding parse_content_range
parse_range_probe headers = record {
  supports_ranges =
      is_some_and (to_str (headers "accept-ranges")) (λ v. eq_ignore_ascii_case v (codes "bytes"))
      || is_some (headers "content-range");
  total_bytes = elim (total_of (to_str (headers "content-range"))) [
    | some total ↦ some total
    | none ↦ length_of (to_str (headers "content-length"))
  ];
}
