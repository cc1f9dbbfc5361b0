-- ===== src/Prelude/Perm.antt =====
-- Lists with the same elements: what tests and filters make of a rearrangement.
use Prim.Native.Nat.{suc, ◌<◌}
use mathlib.Core.Path.{◌≡◌, refl, sym, ap, ◌∙◌}
use mathlib.Core.Logic.{◌⊎◌, inl, inr}
use mathlib.Core.Bool.{Bool, true, false, not, ◌&&◌}
use mathlib.Core.List.{List, [], ◌∷◌, ◌++◌, Permᴰ}
use mathlib.Core.List.Permᴰ
use native.Mathlib.Omega.{arith}
use link_ear.Prelude.Tests.{if◌then◌else◌, Bool-cases}
use link_ear.Prelude.Lists.{any, all, filter, length}

module _ {ℓ} {A : Type ℓ} where
  pub data In : A → List A → Type ℓ where
    here : {a x : A} {xs : List A} → a ≡ x → In a (x ∷ xs)
    there : {a x : A} {xs : List A} → In a xs → In a (x ∷ xs)

  pub skip_second : (e x : A) (xs : List A) (m : A) → In m (e ∷ xs) → In m (e ∷ x ∷ xs)
  skip_second e x xs m (here p) = here p
  skip_second e x xs m (there i) = there (there i)

  pub all-In : (p : A → Bool) (xs : List A) (a : A) → all p xs ≡ true → In a xs → p a ≡ true
  all-In p [] a h i = elim i [ ]
  all-In p (x ∷ xs) a h (here e) = ap p e ∙ ground arith
  all-In p (x ∷ xs) a h (there i) = all-In p xs a (ground arith) i

  pub all_of_In : (p : A → Bool) (xs : List A) → ((a : A) → In a xs → p a ≡ true) → all p xs ≡ true
  all_of_In p [] h = refl
  all_of_In p (x ∷ xs) h = ground (arith, h x (here refl), all_of_In p xs (λ a i. h a (there i)))

  In-kept :
      (b : Bool) (a x : A) (xs : List A)
      → In a (if b then x ∷ xs else xs)
      → ((a ≡ x) × (b ≡ true)) ⊎ In a xs
  In-kept true a x xs (here e) = inl (e, refl)
  In-kept true a x xs (there i) = inr i
  In-kept false a x xs i = inr i

  pub In-filter : (p : A → Bool) (xs : List A) (a : A) → In a (filter p xs) → In a xs × (p a ≡ true)
  In-filter p [] a i = elim i [ ]
  In-filter p (x ∷ xs) a i = elim (In-kept (p x) a x (filter p xs) i) [
    | inl e ↦ (here e.0, ap p e.0 ∙ e.1)
    | inr j ↦ (there (In-filter p xs a j).0, (In-filter p xs a j).1)
  ]

  pub filter_congr :
      (p q : A → Bool) (xs : List A) → ((a : A) → In a xs → p a ≡ q a) → filter p xs ≡ filter q xs
  filter_congr p q [] h = refl
  filter_congr p q (x ∷ xs) h = cc (h x (here refl), filter_congr p q xs (λ a i. h a (there i)))

  pub all_congr :
      (p q : A → Bool) (xs : List A) → ((a : A) → In a xs → p a ≡ q a) → all p xs ≡ all q xs
  all_congr p q [] h = refl
  all_congr p q (x ∷ xs) h = cc (h x (here refl), all_congr p q xs (λ a i. h a (there i)))

  pub any_congr :
      (p q : A → Bool) (xs : List A) → ((a : A) → In a xs → p a ≡ q a) → any p xs ≡ any q xs
  any_congr p q [] h = refl
  any_congr p q (x ∷ xs) h = cc (h x (here refl), any_congr p q xs (λ a i. h a (there i)))

  pub all-filter : (p q : A → Bool) (xs : List A) → all q xs ≡ true → all q (filter p xs) ≡ true
  all-filter p q [] h = refl
  all-filter p q (x ∷ xs) h = ground (arith, all-filter p q xs)

  pub all-append : (q : A → Bool) (xs ys : List A) → all q (xs ++ ys) ≡ (all q xs && all q ys)
  all-append q [] ys = refl
  all-append q (x ∷ xs) ys = ground (arith, all-append q xs ys)

  keep-Permᴰ :
      (b c : Bool) {x y : A} {xs ys : List A}
      → b ≡ c
      → x ≡ y
      → Permᴰ xs ys
      → Permᴰ (if b then x ∷ xs else xs) (if c then y ∷ ys else ys)
  keep-Permᴰ true true h e d = Permᴰ.cons e d
  keep-Permᴰ false false h e d = d
  keep-Permᴰ true false h e d = absurd (cc)
  keep-Permᴰ false true h e d = absurd (cc)

  keep_swap :
      (b c : Bool) (x y : A) (xs : List A)
      → Permᴰ
          (if b then x ∷ (if c then y ∷ xs else xs) else (if c then y ∷ xs else xs))
          (if c then y ∷ (if b then x ∷ xs else xs) else (if b then x ∷ xs else xs))
  keep_swap true true x y xs = Permᴰ.swap refl refl
  keep_swap true false x y xs = Permᴰ.refl (x ∷ xs)
  keep_swap false true x y xs = Permᴰ.refl (y ∷ xs)
  keep_swap false false x y xs = Permᴰ.refl xs

  pub filter-Permᴰ :
      (p : A → Bool) {xs ys : List A} → Permᴰ xs ys → Permᴰ (filter p xs) (filter p ys)
  filter-Permᴰ p Permᴰ.nil = Permᴰ.nil
  filter-Permᴰ p (Permᴰ.cons {a} {b} e d) = keep-Permᴰ (p a) (p b) (ap p e) e (filter-Permᴰ p d)
  filter-Permᴰ p (Permᴰ.swap {a} {b} {a'} {b'} {l} e f) =
      Permᴰ.trans (keep_swap (p a) (p b) a b (filter p l)) (
        keep-Permᴰ (p b) (p a') (ap p f) f
          (keep-Permᴰ (p a) (p b') (ap p e) e (Permᴰ.refl (filter p l))))
  filter-Permᴰ p (Permᴰ.trans d d') = Permᴰ.trans (filter-Permᴰ p d) (filter-Permᴰ p d')

  pub all-Permᴰ : (p : A → Bool) {xs ys : List A} → Permᴰ xs ys → all p xs ≡ all p ys
  all-Permᴰ p Permᴰ.nil = refl
  all-Permᴰ p (Permᴰ.cons e d) = cc (ap p e, all-Permᴰ p d)
  all-Permᴰ p (Permᴰ.swap {a} {b} {a'} {b'} e f) = ground (arith, ap p e, ap p f)
  all-Permᴰ p (Permᴰ.trans d d') = all-Permᴰ p d ∙ all-Permᴰ p d'

  pub any-Permᴰ : (p : A → Bool) {xs ys : List A} → Permᴰ xs ys → any p xs ≡ any p ys
  any-Permᴰ p Permᴰ.nil = refl
  any-Permᴰ p (Permᴰ.cons e d) = cc (ap p e, any-Permᴰ p d)
  any-Permᴰ p (Permᴰ.swap {a} {b} {a'} {b'} e f) = ground (arith, ap p e, ap p f)
  any-Permᴰ p (Permᴰ.trans d d') = any-Permᴰ p d ∙ any-Permᴰ p d'

  pub length-Permᴰ : {xs ys : List A} → Permᴰ xs ys → length xs ≡ length ys
  length-Permᴰ Permᴰ.nil = refl
  length-Permᴰ (Permᴰ.cons e d) = ap suc (length-Permᴰ d)
  length-Permᴰ (Permᴰ.swap e f) = refl
  length-Permᴰ (Permᴰ.trans d d') = length-Permᴰ d ∙ length-Permᴰ d'

  split-Permᴰ :
      (b : Bool) (x : A) (xs ys zs : List A)
      → Permᴰ (xs ++ ys) zs
      → Permᴰ ((if b then x ∷ xs else xs) ++ (if not b then x ∷ ys else ys)) (x ∷ zs)
  split-Permᴰ true x xs ys zs d = Permᴰ.cons refl d
  split-Permᴰ false x xs ys zs d = Permᴰ.trans (Permᴰ.middle x xs ys) (Permᴰ.cons refl d)

  -- The elements that pass a test and those that do not are all elements.
  pub filter_both :
      (p : A → Bool) (xs : List A) → Permᴰ (filter p xs ++ filter (λ a. not (p a)) xs) xs
  filter_both p [] = Permᴰ.nil
  filter_both p (x ∷ xs) =
      split-Permᴰ (p x) x (filter p xs) (filter (λ a. not (p a)) xs) xs (filter_both p xs)

  keep-In : (b : Bool) (a x : A) (xs : List A) → In a xs → In a (if b then x ∷ xs else xs)
  keep-In true a x xs i = there i
  keep-In false a x xs i = i

  keep-here :
      (b : Bool) (a x : A) (xs : List A) → b ≡ true → a ≡ x → In a (if b then x ∷ xs else xs)
  keep-here true a x xs h e = here e
  keep-here false a x xs h e = absurd (cc)

  pub filter-In : (p : A → Bool) (xs : List A) (a : A) → In a xs → p a ≡ true → In a (filter p xs)
  filter-In p [] a i h = elim i [ ]
  filter-In p (x ∷ xs) a (here e) h = keep-here (p x) a x (filter p xs) (sym (ap p e) ∙ h) e
  filter-In p (x ∷ xs) a (there i) h = keep-In (p x) a x (filter p xs) (filter-In p xs a i h)

  pub any-In : (p : A → Bool) (xs : List A) (a : A) → In a xs → p a ≡ true → any p xs ≡ true
  any-In p [] a i h = elim i [ ]
  any-In p (x ∷ xs) a (here e) h = ground (arith, ap p e)
  any-In p (x ∷ xs) a (there i) h = ground (arith, any-In p xs a i h)

  pub exists_of_any :
      (p : A → Bool) (xs : List A) → any p xs ≡ true → (a : A) × In a xs × (p a ≡ true)
  exists_of_any p [] h = absurd (cc)
  exists_of_any p (x ∷ xs) h = elim (Bool-cases (p x)) [
    | inl e ↦ (x, here refl, e)
    | inr e ↦ let (a, i, k) = exists_of_any p xs (ground arith) in (a, there i, k)
  ]

  pub filter-filter :
      (p q : A → Bool) (xs : List A) → filter p (filter q xs) ≡ filter (λ a. q a && p a) xs
  filter-filter p q [] = refl
  filter-filter p q (x ∷ xs) = ground (arith, filter-filter p q xs)

  pub filter_none : (p : A → Bool) (xs : List A) → any p xs ≡ false → filter p xs ≡ []
  filter_none p [] h = refl
  filter_none p (x ∷ xs) h = ground (arith, filter_none p xs)

  pub length-filter : (p : A → Bool) (xs : List A) → any p xs ≡ true → 0 < length (filter p xs)
  length-filter p [] h = absurd (cc)
  length-filter p (x ∷ xs) h = ground (arith, length-filter p xs)

  pub In-Permᴰ : {xs ys : List A} (a : A) → Permᴰ xs ys → In a xs → In a ys
  In-Permᴰ a Permᴰ.nil i = i
  In-Permᴰ a (Permᴰ.cons e d) (here p) = here (p ∙ e)
  In-Permᴰ a (Permᴰ.cons e d) (there i) = there (In-Permᴰ a d i)
  In-Permᴰ a (Permᴰ.swap e f) (here p) = there (here (p ∙ e))
  In-Permᴰ a (Permᴰ.swap e f) (there (here p)) = here (p ∙ f)
  In-Permᴰ a (Permᴰ.swap e f) (there (there i)) = there (there i)
  In-Permᴰ a (Permᴰ.trans d d') i = In-Permᴰ a d' (In-Permᴰ a d i)
