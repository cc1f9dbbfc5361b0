-- ===== src/Prelude/Text.antt =====
-- Text: numbers in decimal, joining, and the byte order of texts with its laws.
use Prim.Native.Nat.{ℕ, zero, suc, ◌/◌, ◌%◌}
use Prim.Native.String.{String, compare, ◌++◌ as str_append}
use Prim.Native.String.compare.{cons-cons, nil-cons, cons-nil}
use mathlib.Core.Path.{◌≡◌, refl, ap}
use mathlib.Core.Bool.{Bool, true, false}
use mathlib.Core.List.{List, [], ◌∷◌}
use native.Mathlib.Omega.{arith}
use text.Mathlib.Text.{is_lt}
use text.Mathlib.TextPositions.{compare_refl}
use text.Mathlib.TextEquality.{Char-path}
use link_ear.Prelude.Tests.{ltb, nat_beq, if◌then◌else◌}
use link_ear.Prelude.Int.{ℤ, pos, negsuc}

abbrev pub digit : ℕ → String
digit d =
    if nat_beq d 0
    then "0"
    else if nat_beq d 1
    then "1"
    else if nat_beq d 2
    then "2"
    else if nat_beq d 3
    then "3"
    else if nat_beq d 4
    then "4"
    else if nat_beq d 5
    then "5"
    else if nat_beq d 6
    then "6"
    else if nat_beq d 7
    then "7"
    else if nat_beq d 8
    then "8"
    else "9"

unfoldable pub decimal : ℕ → ℕ → String
decimal zero n = digit n
decimal (suc fuel) n =
    let rest = decimal fuel (n / 10) in
    if ltb n 10 then digit n else str_append rest (digit (n % 10))

-- `{n}`. A u64 has at most twenty digits.
unfoldable pub display : ℕ → String
unfolding decimal
display n = decimal 20 n

-- `{n:02}`.
unfoldable pub display_padded : ℕ → String
unfolding display
display_padded n = if ltb n 10 then str_append "0" (display n) else display n

unfoldable pub display_ℤ : ℤ → String
unfolding display
display_ℤ (pos n) = display n
display_ℤ (negsuc n) = str_append "-" (display (suc n))

-- A text from its pieces, as `format!` joins them.
unfoldable pub concat : List String → String
concat [] = ""
concat (s ∷ ss) = str_append s (concat ss)

-- `s < t`, in the order of the UTF-8 bytes.
abbrev pub str_lt : String → String → Bool
str_lt s t = is_lt (compare s t)

pub str_lt_irrefl : (s : String) → str_lt s s ≡ false
str_lt_irrefl s = ap is_lt (compare_refl s)

pub str_lt_trans : (s t u : String) → str_lt s t ≡ true → str_lt t u ≡ true → str_lt s u ≡ true
str_lt_trans s String.[] String.[] h k = cc
str_lt_trans String.[] String.[] (String.◌∷◌ e u) h k = ground arith
str_lt_trans (String.◌∷◌ c s) String.[] (String.◌∷◌ e u) h k = ground (arith, cons-nil c s)
str_lt_trans s (String.◌∷◌ d t) String.[] h k = ground (arith, cons-nil d t)
str_lt_trans String.[] (String.◌∷◌ d t) (String.◌∷◌ e u) h k = ground (arith, nil-cons e u)
str_lt_trans (String.◌∷◌ c s) (String.◌∷◌ d t) (String.◌∷◌ e u) h k =
    ground (arith, str_lt_trans s t u, cons-cons c d s t, cons-cons d e t u, cons-cons c e s u)

pub str_lt_total : (s t : String) → str_lt s t ≡ false → str_lt t s ≡ false → s ≡ t
str_lt_total String.[] String.[] h k = refl
str_lt_total String.[] (String.◌∷◌ d t) h k = ground (arith, nil-cons d t)
str_lt_total (String.◌∷◌ c s) String.[] h k = ground (arith, nil-cons c s)
str_lt_total (String.◌∷◌ c s) (String.◌∷◌ d t) h k =
    ground (arith, cons-cons c d s t, cons-cons d c t s, str_lt_total s t, Char-path c d)
