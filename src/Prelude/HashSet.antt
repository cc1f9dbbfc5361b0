-- ===== src/Prelude/HashSet.antt =====
-- std::collections::HashSet, as the list of its elements. The order of the list is not observable
-- through these operations, but for the order in which a loop visits the elements.
use Prim.Native.Nat.{ℕ, suc, ◌+◌, ◌≤◌}
use mathlib.Core.Path.{◌≡◌, refl}
use mathlib.Core.Bool.{Bool, true, false, not, ◌&&◌, ◌||◌}
use mathlib.Core.List.{List, [], ◌∷◌, ◌++◌}
use native.Mathlib.Omega.{arith}
use link_ear.Prelude.Tests.{if◌then◌else◌}
use link_ear.Prelude.Keys.{Eq, ◌==◌, beq_refl}
use link_ear.Prelude.Lists.{length}

abbrev pub HashSet {ℓ} : Type ℓ → Type ℓ
HashSet A = List A

abbrev pub new {ℓ} : {A : Type ℓ} → HashSet A
new = []

abbrev pub len {ℓ} : {A : Type ℓ} → HashSet A → ℕ
len = length

abbrev pub is_empty {ℓ} : {A : Type ℓ} → HashSet A → Bool
is_empty [] = true
is_empty (x ∷ xs) = false

module _ {ℓ} {A : Type ℓ} ⦃e : Eq A⦄ where
  unfoldable pub contains : HashSet A → A → Bool
  contains [] a = false
  contains (x ∷ xs) a = (x == a) || contains xs a

  -- `insert` and `remove` also answer whether the set changed.
  unfoldable pub insert : HashSet A → A → HashSet A × Bool
  insert s a = if contains s a then (s, false) else (a ∷ s, true)

  unfoldable pub delete : HashSet A → A → HashSet A
  delete [] a = []
  delete (x ∷ xs) a = let rest = delete xs a in if x == a then rest else x ∷ rest

  unfoldable pub remove : HashSet A → A → HashSet A × Bool
  unfolding delete contains
  remove s a = (delete s a, contains s a)

  unfoldable pub is_subset : HashSet A → HashSet A → Bool
  unfolding contains
  is_subset [] t = true
  is_subset (x ∷ xs) t = contains t x && is_subset xs t

  -- No element is listed twice: what `insert` and `remove` keep, so that `len` counts elements.
  abbrev pub Distinct : HashSet A → Type 0
  Distinct [] = Unit
  Distinct (x ∷ xs) = (contains xs x ≡ false) × Distinct xs

  pub contains-insert :
      (s : HashSet A) (a b : A) → contains (insert s a).0 b ≡ ((a == b) || contains s b)
  unfolding insert contains
  contains-insert s a b = ground (arith, e.beq_iff a b)

  pub insert-Distinct : (s : HashSet A) (a : A) → Distinct s → Distinct (insert s a).0
  unfolding insert
  insert-Distinct s a d = ground arith

  pub contains-delete :
      (s : HashSet A) (a b : A) → contains (delete s a) b ≡ (not (a == b) && contains s b)
  unfolding delete contains
  contains-delete [] a b = ground arith
  contains-delete (x ∷ xs) a b =
      ground (arith, contains-delete xs a b, e.beq_iff x a, e.beq_iff a b, e.beq_iff x b)

  pub delete-Distinct : (s : HashSet A) (a : A) → Distinct s → Distinct (delete s a)
  unfolding delete
  delete-Distinct [] a d = tt
  delete-Distinct (x ∷ xs) a d = ground (arith, delete-Distinct xs a d.1, contains-delete xs a x)

  pub delete_absent : (s : HashSet A) (a : A) → contains s a ≡ false → delete s a ≡ s
  unfolding delete contains
  delete_absent [] a h = refl
  delete_absent (x ∷ xs) a h = ground (arith, delete_absent xs a)

  pub length-delete :
      (s : HashSet A) (a : A)
      → Distinct s
      → length s ≡ length (delete s a) + (if contains s a then 1 else 0)
  unfolding delete contains
  length-delete [] a d = omega arith
  length-delete (x ∷ xs) a d =
      ground (arith, length-delete xs a d.1, delete_absent xs a, e.beq_iff x a)

  pub is_subset-contains :
      (s t : HashSet A) (a : A) → is_subset s t ≡ true → contains s a ≡ true → contains t a ≡ true
  unfolding is_subset
  is_subset-contains [] t a h m = cc
  is_subset-contains (x ∷ xs) t a h m = ground (arith, is_subset-contains xs t a, e.beq_iff x a)

  -- The definition of the subset relation, from the elements of a set.
  pub is_subset_of :
      (s t : HashSet A)
      → ((a : A) → contains s a ≡ true → contains t a ≡ true)
      → is_subset s t ≡ true
  unfolding is_subset
  is_subset_of [] t h = refl
  is_subset_of (x ∷ xs) t h =
      ground (arith, h x, beq_refl x, is_subset_of xs t (λ a m. h a (ground arith)))

  length-delete-le : (s : HashSet A) (a : A) → length (delete s a) ≤ length s
  unfolding delete
  length-delete-le [] a = omega arith
  length-delete-le (x ∷ xs) a = ground (arith, length-delete-le xs a)

  length-delete-lt :
      (s : HashSet A) (a : A) → contains s a ≡ true → suc (length (delete s a)) ≤ length s
  unfolding delete contains
  length-delete-lt [] a h = cc
  length-delete-lt (x ∷ xs) a h = ground (arith, length-delete-lt xs a, length-delete-le xs a)

  is_subset-delete :
      (s t : HashSet A) (a : A)
      → contains s a ≡ false
      → is_subset s t ≡ true
      → is_subset s (delete t a) ≡ true
  unfolding is_subset
  is_subset-delete [] t a h m = refl
  is_subset-delete (x ∷ xs) t a h m =
      ground (arith, is_subset-delete xs t a, contains-delete t a x, e.beq_iff x a, e.beq_iff a x)

  -- A set without repeats is no larger than a set that includes it.
  pub length-le_of_is_subset :
      (s t : HashSet A) → Distinct s → is_subset s t ≡ true → length s ≤ length t
  unfolding is_subset
  length-le_of_is_subset [] t d h = omega arith
  length-le_of_is_subset (x ∷ xs) t d h = ground (
    arith,
    is_subset-delete xs t x,
    length-le_of_is_subset xs (delete t x) d.1,
    length-delete-lt t x,
  )

  is_subset_of_length_mem :
      (s t : HashSet A) (a : A)
      → Distinct s
      → is_subset s t ≡ true
      → length t ≤ length s
      → contains t a ≡ true
      → contains s a ≡ true
  is_subset_of_length_mem s t a d h l m =
      ground (
        arith,
        is_subset-delete s t a,
        length-le_of_is_subset s (delete t a) d,
        length-delete-lt t a,
      )

  -- If it is as large, the two have the same elements.
  pub is_subset_of_length :
      (s t : HashSet A)
      → Distinct s
      → is_subset s t ≡ true
      → length t ≤ length s
      → is_subset t s ≡ true
  is_subset_of_length s t d h l = is_subset_of t s (λ a m. is_subset_of_length_mem s t a d h l m)

  -- Joined lists, for two disjoint sets.
  pub contains-append :
      (xs ys : List A) (a : A) → contains (xs ++ ys) a ≡ (contains xs a || contains ys a)
  unfolding contains
  contains-append [] ys a = refl
  contains-append (x ∷ xs) ys a = ground (arith, contains-append xs ys a)

  pub contains_middle :
      (xs ys : List A) (x a : A) → contains (xs ++ x ∷ ys) a ≡ ((x == a) || contains (xs ++ ys) a)
  unfolding contains
  contains_middle [] ys x a = refl
  contains_middle (z ∷ xs) ys x a = ground (arith, contains_middle xs ys x a)

  pub Distinct-middle :
      (xs ys : List A) (x : A)
      → contains (xs ++ ys) x ≡ false
      → Distinct (xs ++ ys)
      → Distinct (xs ++ x ∷ ys)
  unfolding contains
  Distinct-middle [] ys x h d = (h, d)
  Distinct-middle (z ∷ xs) ys x h d =
      ground
        (arith, contains_middle xs ys x z, Distinct-middle xs ys x, e.beq_iff x z, e.beq_iff z x)

  pub is_subset_middle :
      (xs ys t : List A) (x : A)
      → is_subset (xs ++ x ∷ ys) t ≡ (contains t x && is_subset (xs ++ ys) t)
  unfolding is_subset
  is_subset_middle [] ys t x = refl
  is_subset_middle (z ∷ xs) ys t x = ground (arith, is_subset_middle xs ys t x)
