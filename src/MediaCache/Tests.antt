-- ===== src/MediaCache/Tests.antt =====
-- src/media_cache.rs: ranges, headers, answers and files.
use link_ear.Prelude.{
  ℕ, ◌-◌, ◌≤◌, min, String, ◌≡◌, refl, ◌↔◌, Bool, true, none, some, List, [], ◌∷◌, arith,
  if◌then◌else◌, ◌==◌, string_eq, nat_eq, bool_eq, option_eq,
}
use link_ear.MediaCache.{ByteRange, IsRange, header_value}
use link_ear.MediaCache.Index.{RangeIndex, default}
use link_ear.MediaCache.Index.Normal.{holds, cached, IsNormal}
use link_ear.MediaCache.Index.Canonical.{insert_all, insert_all_refines}
use link_ear.MediaCache.Window.{clamp_track_range, clamp_track_range_lem}
use link_ear.Prelude.Codes.{codes}
use link_ear.MediaCache.Headers.{HeaderMap, ContentRange, RangeProbe, parse_content_range}
use link_ear.MediaCache.Headers.Printed.{content_range_value, parse-content_range_value}
use link_ear.MediaCache.Fetch.{
  Response, answered, whole, fetch_range_bytes, fetch_range_bytes_lem, ok, err, range_of, Accepts,
  MediaRangeError,
}
use link_ear.MediaCache.Evict.{CacheFile}

abbrev head : ByteRange
head = record { start = 0; end_inclusive = 9 }

abbrev middle : ByteRange
middle = record { start = 5; end_inclusive = 19 }

abbrev tail : ByteRange
tail = record { start = 30; end_inclusive = 39 }

abbrev two_runs : RangeIndex
two_runs = record { ranges = head ∷ tail ∷ [] }

two_runs-IsNormal : IsNormal two_runs
two_runs-IsNormal =
    (omega arith, (omega arith, omega arith), (omega arith, (omega arith, omega arith), tt))

insert_all_refines_example :
    IsNormal (insert_all default (tail ∷ head ∷ middle ∷ []))
    × ((offset : ℕ)
        → cached (insert_all default (tail ∷ head ∷ middle ∷ [])) offset
          ≡ holds (tail ∷ head ∷ middle ∷ []) offset)
insert_all_refines_example =
    insert_all_refines (tail ∷ head ∷ middle ∷ [])
      ((omega arith, omega arith), ((omega arith, omega arith), ((omega arith, omega arith), tt)))

clamp_track_range_lem_example :
    ((clamp_track_range tail 35 ≡ none) ↔ ((offset : ℕ) → 30 ≤ offset → offset ≤ 39 → 35 ≤ offset))
    × ((c : ByteRange)
        → clamp_track_range tail 35 ≡ some c
        → IsRange c × (c ≡ record tail { end_inclusive = min 39 (35 - 1) }))
clamp_track_range_lem_example = clamp_track_range_lem tail 35 (omega arith)

abbrev first_part : ContentRange
first_part = record { start = 0; end_inclusive = 9; total = some 40 }

parse-content_range_value_example :
    parse_content_range (content_range_value first_part) ≡ some first_part
parse-content_range_value_example =
    parse-content_range_value first_part (omega arith, omega arith, refl)

-- Errors of the HTTP client are status codes.
abbrev headers : HeaderMap
headers name = if name == "content-range" then some (some (codes "bytes 0-9/40")) else none

abbrev ten_bytes : List ℕ
ten_bytes = 0 ∷ 1 ∷ 2 ∷ 3 ∷ 4 ∷ 5 ∷ 6 ∷ 7 ∷ 8 ∷ 9 ∷ []

abbrev full_answer : Response ℕ some
full_answer = answered 206 headers (whole ten_bytes)

abbrev probe : RangeProbe
probe = record { supports_ranges = true; total_bytes = some 40 }

fetch_range_bytes_lem_example :
    ((fetch_range_bytes ℕ some head full_answer ≡ ok (ten_bytes, probe))
      ↔ Accepts ℕ some head full_answer ten_bytes probe)
    × ((e : MediaRangeError ℕ some)
        → fetch_range_bytes ℕ some head full_answer ≡ err e
        → range_of ℕ some e ≡ header_value head)
fetch_range_bytes_lem_example =
    fetch_range_bytes_lem ℕ some head full_answer ten_bytes probe (omega arith)

abbrev old_file : CacheFile
old_file = record { path = "a"; len = 5; modified = 1 }

abbrev new_file : CacheFile
new_file = record { path = "b"; len = 7; modified = 2 }

abbrev removes : String → Bool
removes path = true
