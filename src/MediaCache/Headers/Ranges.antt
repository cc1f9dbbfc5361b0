-- ===== src/MediaCache/Headers/Ranges.antt =====
-- src/media_cache.rs: when the server's headers say that it answers ranges.
use link_ear.Prelude.{
  ℕ, ◌+◌, ◌≤◌, ◌≡◌, refl, sym, ◌↔◌, ◌⊎◌, inl, inr, Bool, true, false, ◌||◌, Option, none, some,
  List, [], ◌∷◌, arith, is_some, is_some_and, ◌==◌, string_eq, nat_eq, bool_eq, option_eq,
}
use mathlib.Core.Path.{subst}
use link_ear.Prelude.Codes.{codes}
use link_ear.MediaCache.Headers.{HeaderMap, parse_range_probe, lower, eq_ignore_ascii_case, to_str}

-- Small letters.
abbrev AreSmall : List ℕ → Type 0
AreSmall [] = Unit
AreSmall (d ∷ ds) = ((b'a' ≤ d) × (d ≤ b'z')) × AreSmall ds

-- A text that is written with some small letters, each of them as it is or as its capital.
abbrev pub Spells : List ℕ → List ℕ → Type 0
Spells [] [] = Unit
Spells [] (d ∷ ds) = ⊥
Spells (c ∷ cs) [] = ⊥
Spells (c ∷ cs) (d ∷ ds) = ((c ≡ d) ⊎ (c + 32 ≡ d)) × Spells cs ds

same_letter : (c d : ℕ) → b'a' ≤ d → d ≤ b'z' → (lower c == lower d) ≡ true → (c ≡ d) ⊎ (c + 32 ≡ d)
same_letter c d a z h = ground arith

letter_same : (c d : ℕ) → b'a' ≤ d → d ≤ b'z' → (c ≡ d) ⊎ (c + 32 ≡ d) → (lower c == lower d) ≡ true
letter_same c d a z (inl h) = ground arith
letter_same c d a z (inr h) = ground arith

eq_ignore-Spells :
    (cs ds : List ℕ) → AreSmall ds → (eq_ignore_ascii_case cs ds ≡ true) ↔ Spells cs ds
eq_ignore-Spells [] [] s = ((λ h. tt), (λ h. refl))
eq_ignore-Spells [] (d ∷ ds) s = ((λ h. absurd (ground arith)), (λ h. absurd h))
eq_ignore-Spells (c ∷ cs) [] s = ((λ h. absurd (ground arith)), (λ h. absurd h))
eq_ignore-Spells (c ∷ cs) (d ∷ ds) ((a, z), s) =
    let (reads, writes) = eq_ignore-Spells cs ds s in
    (
      (λ h. (same_letter c d a z (ground arith), reads (ground arith))),
      (λ (l, w). ground (arith, letter_same c d a z l, writes w)),
    )

bytes-AreSmall : AreSmall (codes "bytes")
bytes-AreSmall = (
  (omega arith, omega arith),
  (
    (omega arith, omega arith),
    ((omega arith, omega arith), ((omega arith, omega arith), ((omega arith, omega arith), tt))),
  ),
)

-- The unit of ranges is bytes, or the headers say which range the body is.
abbrev pub NamesRanges : HeaderMap → Type 0
NamesRanges headers =
    ((v : List ℕ) × (headers "accept-ranges" ≡ some (some v)) × Spells v (codes "bytes"))
    ⊎ ((v : Option (List ℕ)) × (headers "content-range" ≡ some v))

text_names :
    (h : Option (Option (List ℕ)))
    → (is_some_and (to_str h) (λ v. eq_ignore_ascii_case v (codes "bytes")) ≡ true)
      ↔ ((v : List ℕ) × (h ≡ some (some v)) × Spells v (codes "bytes"))
text_names none = ((λ h. absurd (ground arith)), (λ (v, e, s). absurd (ground arith)))
text_names (some none) = ((λ h. absurd (ground arith)), (λ (v, e, s). absurd (ground arith)))
text_names (some (some w)) = (
  (λ h. (w, refl, (eq_ignore-Spells w (codes "bytes") bytes-AreSmall).0 h)),
  (λ (v, e, s).
      let same : w ≡ v = ground arith in
      (eq_ignore-Spells w (codes "bytes") bytes-AreSmall).1
        (subst (λ t. Spells t (codes "bytes")) (sym same) s)),
)

is_there :
    (h : Option (Option (List ℕ))) → (is_some h ≡ true) ↔ ((v : Option (List ℕ)) × (h ≡ some v))
is_there none = ((λ h. absurd (ground arith)), (λ (v, e). absurd (ground arith)))
is_there (some v) = ((λ h. (v, refl)), (λ h. refl))

either_other : (b : Bool) (P Q : Type 0) → b ≡ false → (b ≡ true) ↔ P → P ⊎ Q → Q
either_other b P Q f p (inl x) = absurd (ground (arith, p.1 x))
either_other b P Q f p (inr y) = y

supports_of :
    (b c : Bool) (P Q : Type 0) → (b ≡ true) ↔ P → (c ≡ true) ↔ Q → ((b || c) ≡ true) ↔ (P ⊎ Q)
supports_of true c P Q p q = ((λ h. inl (p.0 refl)), (λ h. refl))
supports_of false c P Q p q = ((λ h. inr (q.0 h)), (λ h. q.1 (either_other false P Q refl p h)))

-- A probe supports ranges exactly when the headers name them.
pub parse_range_probe-NamesRanges :
    (headers : HeaderMap)
    → ((parse_range_probe headers).supports_ranges ≡ true) ↔ NamesRanges headers
unfolding parse_range_probe
parse_range_probe-NamesRanges headers =
    supports_of _ _ _ _ (text_names (headers "accept-ranges")) (is_there (headers "content-range"))
