-- ===== src/MediaCache/Fetch.antt =====
-- src/media_cache.rs: the requests for media, as functions of what the server answers.
use link_ear.Prelude.{
  ℕ, suc, ◌+◌, ◌≤◌, ◌<◌, String, ◌≡◌, ◌↔◌, Bool, not, ◌&&◌, Option, none, some, List, arith, ltb,
  leb, if◌then◌else◌, ◌!=◌, string_eq, nat_eq, bool_eq, option_eq, length,
}
use link_ear.MediaCache.{ByteRange, len, header_value}
use link_ear.MediaCache.Headers.{HeaderMap, RangeProbe, parse_range_probe}
use link_ear.MediaCache.Headers.Ranges.{NamesRanges, parse_range_probe-NamesRanges}

module _ (Error : Type 0) (status_of : Error → Option ℕ) where
  pub data MediaRangeError : Type 0 where
    request : (range : String) (source : Error) → MediaRangeError
    http_status : (range : String) (status : ℕ) → MediaRangeError
    unsupported_range : (range : String) → MediaRangeError
    read : (range : String) (source : Error) → MediaRangeError
    unexpected_length : (range : String) (actual expected : ℕ) → MediaRangeError

  unfoldable pub status : MediaRangeError → Option ℕ
  status (request range source) = status_of source
  status (http_status range code) = some code
  status (unsupported_range range) = none
  status (read range source) = status_of source
  status (unexpected_length range actual expected) = none

  unfoldable pub range_of : MediaRangeError → String
  range_of (request range source) = range
  range_of (http_status range code) = range
  range_of (unsupported_range range) = range
  range_of (read range source) = range
  range_of (unexpected_length range actual expected) = range

  -- What reading the body of an answer brings, and what sending a request brings.
  pub data Body : Type 0 where
    broken : Error → Body
    whole : (bytes : List ℕ) → Body

  pub data Response : Type 0 where
    unsent : Error → Response
    answered : (status : ℕ) (headers : HeaderMap) (body : Body) → Response

  pub data Fetched (A : Type 0) : Type 0 where
    ok : A → Fetched A
    err : MediaRangeError → Fetched A

  abbrev pub is_success : ℕ → Bool
  is_success code = leb 200 code && ltb code 300

  abbrev pub received : ByteRange → RangeProbe → Body → Fetched (List ℕ × RangeProbe)
  received range probe (broken source) = err (read (header_value range) source)
  received range probe (whole bytes) =
      if length bytes != len range
      then err (unexpected_length (header_value range) (length bytes) (len range))
      else ok (bytes, probe)

  unfoldable pub fetch_range_bytes : ByteRange → Response → Fetched (List ℕ × RangeProbe)
  fetch_range_bytes range (unsent source) = err (request (header_value range) source)
  fetch_range_bytes range (answered code headers body) =
      if not (is_success code)
      then err (http_status (header_value range) code)
      else (let probe = parse_range_probe headers in
          if not probe.supports_ranges
          then err (unsupported_range (header_value range))
          else received range probe body)

  unfoldable pub probe_range_support : Response → Fetched RangeProbe
  probe_range_support (unsent source) = err (request "bytes=0-0" source)
  probe_range_support (answered code headers body) =
      if not (is_success code)
      then err (http_status "bytes=0-0" code)
      else (let probe = parse_range_probe headers in
          if not probe.supports_ranges then err (unsupported_range "bytes=0-0") else ok probe)

  abbrev full_body : Body → Fetched (List ℕ)
  full_body (broken source) = err (read "full media" source)
  full_body (whole bytes) = ok bytes

  unfoldable pub fetch_full_media_bytes : Response → Fetched (List ℕ)
  fetch_full_media_bytes (unsent source) = err (request "full media" source)
  fetch_full_media_bytes (answered code headers body) =
      if not (is_success code) then err (http_status "full media" code) else full_body body

  -- The bytes are those of the body of a 2xx status, are all of the range, and the headers name ranges.
  abbrev pub Accepts : ByteRange → Response → List ℕ → RangeProbe → Type 0
  Accepts range (unsent source) bytes probe = ⊥
  Accepts range (answered code headers body) bytes probe =
      (200 ≤ code)
      × (code < 300)
      × NamesRanges headers
      × (parse_range_probe headers ≡ probe)
      × (body ≡ whole bytes)
      × (range.start + length bytes ≡ suc range.end_inclusive)

  -- A request for a range that is not empty brings bytes exactly when the server answers with a 2xx status,
  -- its headers say "accept-ranges: bytes", in letters of either case, or name a content range, and its
  -- whole body is as long as from the start to the end of the range; it then brings this body, and the
  -- probe that is read from the headers. Any error names the requested range.
  pub fetch_range_bytes_lem :
      (range : ByteRange) (response : Response) (bytes : List ℕ) (probe : RangeProbe)
      → range.start ≤ range.end_inclusive
      → ((fetch_range_bytes range response ≡ ok (bytes, probe))
          ↔ Accepts range response bytes probe)
        × ((e : MediaRangeError)
            → fetch_range_bytes range response ≡ err e
            → range_of e ≡ header_value range)
  unfolding fetch_range_bytes range_of len
  fetch_range_bytes_lem range (unsent source) bytes probe le =
      (((λ h. cc), (λ h. absurd h)), (λ e h. ground arith))
  fetch_range_bytes_lem range (answered code headers (broken source)) bytes probe le =
      (((λ h. absurd (ground arith)), (λ h. absurd (ground arith))), (λ e h. ground arith))
  fetch_range_bytes_lem range (answered code headers (whole sent)) bytes probe le =
      let (named, supported) = parse_range_probe-NamesRanges headers in
      (
        (
          (λ h. (
            ground arith,
            ground arith,
            named (ground arith),
            ground arith,
            ground arith,
            ground arith,
          )),
          (λ (low, high, names, probed, all, long). ground (arith, supported names)),
        ),
        (λ e h. ground arith),
      )
