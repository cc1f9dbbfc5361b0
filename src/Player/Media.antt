-- ===== src/Player/Media.antt =====
-- src/player.rs: StreamingMediaSource, through which the decoder reads a SharedBytes as a file.
use link_ear.Prelude.{
  ℕ, zero, suc, ◌+◌, ◌-◌, ◌≤◌, ◌<◌, ◌≡◌, refl, sym, ap, ◌∙◌, inl, inr, Bool, false, Option, none,
  some, List, [], ◌∷◌, ◌++◌, arith, ltb, leb, ltb→lt, if◌then◌else◌, Bool-cases, string_eq, nat_eq,
  bool_eq, option_eq, length, All,
}
use mathlib.Core.Path.{subst}
use link_ear.Prelude.Int.{ℤ, pos, negsuc}
use link_ear.Prelude.Words.{saturating_add_u64, u64_max}
use link_ear.Player.Bytes.{
  StreamingBytesState, Reading, interrupted, failed, read, waiting, read_at,
}
use link_ear.Player.Bytes.Held.{bytes_from, length-bytes_from, IsHeld}
use link_ear.Player.Bytes.Content.{read_at-content}

pub record StreamingMediaSource : Type 0 where
  pub cursor : ℕ

abbrev pub read_into : StreamingMediaSource → StreamingBytesState × Reading → StreamingMediaSource
read_into source (shared, read bytes) = record {
  cursor = saturating_add_u64 source.cursor (length bytes);
}
read_into source (shared, interrupted) = source
read_into source (shared, failed error) = source
read_into source (shared, waiting) = source

-- A call of `read`, or an attempt of one that waits.
unfoldable pub read_source :
    StreamingMediaSource
    → StreamingBytesState
    → ℕ
    → Bool
    → StreamingMediaSource × StreamingBytesState × Reading
unfolding read_at
read_source source shared size decoder_canceled =
    let (after, reading) = read_at shared source.cursor size decoder_canceled in
    (read_into source (after, reading), after, reading)

pub data SeekFrom : Type 0 where
  start : (offset : ℕ) → SeekFrom
  current : (delta : ℤ) → SeekFrom
  end : (delta : ℤ) → SeekFrom

-- `u64::checked_add_signed`.
abbrev pub checked_add_signed : ℕ → ℤ → Option ℕ
checked_add_signed a (pos b) = if leb (a + b) u64_max then some (a + b) else none
checked_add_signed a (negsuc b) = if leb (b + 1) a then some (a - (b + 1)) else none

abbrev pub from_end : Option ℕ → ℤ → Option ℕ
from_end none delta = none
from_end (some len) delta = checked_add_signed len delta

abbrev pub sought : StreamingMediaSource → Option ℕ → SeekFrom → Option ℕ
sought source total_bytes (start offset) = some offset
sought source total_bytes (current delta) = checked_add_signed source.cursor delta
sought source total_bytes (end delta) = from_end total_bytes delta

abbrev pub moved_to : Option ℕ → Option StreamingMediaSource
moved_to none = none
moved_to (some next) = some (record { cursor = next })

-- `none` is an error, after which the cursor is where it was.
unfoldable pub seek : StreamingMediaSource → Option ℕ → SeekFrom → Option StreamingMediaSource
seek source total_bytes from = moved_to (sought source total_bytes from)

-- The decoder's reads, one after the other, each with the state that it finds and the size that it asks
-- for: the bytes that they bring, and where the source then stands. A read that waits brings none.
abbrev pub brought : Reading → List ℕ
brought (read bytes) = bytes
brought interrupted = []
brought (failed error) = []
brought waiting = []

abbrev pub read_each :
    StreamingMediaSource → List (StreamingBytesState × ℕ) → StreamingMediaSource × List ℕ
read_each source [] = (source, [])
read_each source ((shared, size) ∷ rest) =
    let (next, after, reading) = read_source source shared size false in
    let (last, bytes) = read_each next rest in (last, brought reading ++ bytes)

module _ (file : ℕ → ℕ) (total : ℕ) where
  -- The states of a stream whose length is known, in which nothing has failed or been canceled.
  abbrev pub IsRunning : StreamingBytesState × ℕ → Type 0
  IsRunning (shared, size) =
      IsHeld file total shared
      × (0 < size)
      × (shared.canceled ≡ false)
      × (shared.error ≡ none)
      × (shared.total_bytes ≡ some total)

  bytes_from-append :
      (offset m n : ℕ)
      → bytes_from file offset m ++ bytes_from file (offset + m) n ≡ bytes_from file offset (m + n)
  bytes_from-append offset zero n =
      let same : offset + 0 ≡ offset = omega arith in
      let count : n ≡ 0 + n = omega arith in
      ap (λ o. bytes_from file o n) same ∙ ap (bytes_from file offset) count
  bytes_from-append offset (suc m) n =
      let same : offset + suc m ≡ suc offset + m = omega arith in
      let count : suc (m + n) ≡ suc m + n = omega arith in
      ap (λ o. file offset ∷ (bytes_from file (suc offset) m ++ bytes_from file o n)) same
      ∙ ap (λ r. file offset ∷ r) (bytes_from-append (suc offset) m n)
      ∙ ap (bytes_from file offset) count

  -- A read has brought the bytes from the cursor on, and has moved it past them.
  abbrev Moves : StreamingMediaSource → StreamingBytesState × Reading → Type 0
  Moves source r =
      (count : ℕ) × (brought r.1 ≡ bytes_from file source.cursor count)
      × ((read_into source r).cursor ≡ source.cursor + count)
      × (source.cursor + count ≤ total)

  read_at_end :
      (shared : StreamingBytesState) (size : ℕ)
      → IsRunning (shared, size)
      → read_at shared total size false ≡ (shared, read [])
  unfolding read_at
  read_at_end shared size (held, p, c, e, t) = rw c (rw e (rw t (ground arith)))

  read-Moves :
      (source : StreamingMediaSource) (shared : StreamingBytesState) (size : ℕ)
      → total ≤ u64_max
      → source.cursor ≤ total
      → IsRunning (shared, size)
      → Moves source (read_at shared source.cursor size false)
  read-Moves source shared size u l running =
      let (held, p, c, e, t) = running in
      elim (Bool-cases (ltb source.cursor total)) [
        | inl before ↦
            elim (read_at-content file total shared source.cursor size false held
              (p, c, refl, e, t, ltb→lt source.cursor total before)) [
                | inl (absent, waits) ↦
                    let after = (read_at shared source.cursor size false).0 in
                    let stays : Moves source (after, waiting) =
                      (0, refl, omega arith, omega arith) in
                    subst (λ x. Moves source (after, x)) (sym waits) stays
                | inr (held, (count, reads, positive, most, within)) ↦
                    let counted = length-bytes_from file source.cursor count in
                    let goes_on : Moves source
                        (shared, read (bytes_from file source.cursor count)) =
                      (count, refl, omega (arith, counted), within) in
                    subst (Moves source) (sym reads) goes_on
              ]
        | inr past ↦
            let done : source.cursor ≡ total = ground arith in
            let stays : Moves source (shared, read []) = (0, refl, omega arith, omega arith) in
            subst (Moves source)
              (sym (ap (λ o. read_at shared o size false) done ∙ read_at_end shared size running))
              stays
      ]

  -- The reads of the decoder, each of a byte at least and in a state that holds the file's bytes, is neither
  -- canceled nor failed and knows the length, whatever other threads do between them, bring the bytes of the file from the
  -- cursor on, in order and without a gap, and leave the cursor after the last, not past the end.
  pub read_each-bytes :
      (source : StreamingMediaSource) (reads : List (StreamingBytesState × ℕ))
      → total ≤ u64_max
      → source.cursor ≤ total
      → All IsRunning reads
      → let (last, bytes) = read_each source reads in
        (count : ℕ) × (bytes ≡ bytes_from file source.cursor count)
        × (last.cursor ≡ source.cursor + count)
        × (last.cursor ≤ total)
  unfolding read_source
  read_each-bytes source [] u l running = (0, refl, omega arith, l)
  read_each-bytes source ((shared, size) ∷ rest) u l running =
      let r = read_at shared source.cursor size false in
      let (m, first, moved, within) = read-Moves source shared size u l running.0 in
      let next = read_into source r in
      let (n, bytes, cursor, most) = read_each-bytes next rest u (omega arith) running.1 in
      (
        m + n,
        ap (λ b. b ++ (read_each next rest).1) first
            ∙ ap (λ b. bytes_from file source.cursor m ++ b) bytes
            ∙ ap (λ o. bytes_from file source.cursor m ++ bytes_from file o n) moved
            ∙ bytes_from-append source.cursor m n,
        omega arith,
        most,
      )
