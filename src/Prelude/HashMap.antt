-- ===== src/Prelude/HashMap.antt =====
-- std::collections::HashMap, as an association list with one entry for each key. The order of the
-- entries is not observable, but for the order in which a loop visits them.
use Prim.Native.Nat.{suc}
use mathlib.Core.Path.{◌≡◌, refl, ap}
use mathlib.Core.Bool.{Bool, true}
use mathlib.Core.Option.{Option, none, some}
use mathlib.Core.List.{List, [], ◌∷◌}
use native.Mathlib.Omega.{arith}
use link_ear.Prelude.Tests.{if◌then◌else◌, is_some}
use link_ear.Prelude.Keys.{Eq, ◌==◌, beq_refl}
use link_ear.Prelude.Lists.{length}
use link_ear.Prelude.HashSet.{
  HashSet, contains, is_subset, delete, Distinct, is_subset_of, is_subset-contains, contains-delete,
}

abbrev pub HashMap {ℓ κ} : Type ℓ → Type κ → Type (ℓ ⊔ κ)
HashMap K V = List (K × V)

abbrev pub new {ℓ κ} : {K : Type ℓ} {V : Type κ} → HashMap K V
new = []

abbrev pub keys {ℓ κ} : {K : Type ℓ} {V : Type κ} → HashMap K V → List K
keys [] = []
keys ((k, v) ∷ m) = k ∷ keys m

abbrev pub values {ℓ κ} : {K : Type ℓ} {V : Type κ} → HashMap K V → List V
values [] = []
values ((k, v) ∷ m) = v ∷ values m

module _ {ℓ κ} {K : Type ℓ} {V : Type κ} ⦃e : Eq K⦄ where
  unfoldable pub get : HashMap K V → K → Option V
  get [] k = none
  get ((j, v) ∷ m) k = if j == k then some v else get m k

  abbrev pub contains_key : HashMap K V → K → Bool
  contains_key m k = is_some (get m k)

  unfoldable pub remove : HashMap K V → K → HashMap K V
  remove [] k = []
  remove ((j, v) ∷ m) k = let rest = remove m k in if j == k then rest else (j, v) ∷ rest

  -- The entry of the key is replaced.
  unfoldable pub insert : HashMap K V → K → V → HashMap K V
  unfolding remove
  insert m k v = (k, v) ∷ remove m k

  pub get-remove :
      (m : HashMap K V) (k j : K) → get (remove m k) j ≡ (if k == j then none else get m j)
  unfolding get remove
  get-remove [] k j = ground arith
  get-remove ((i, v) ∷ m) k j =
      ground (arith, get-remove m k j, e.beq_iff i k, e.beq_iff k j, e.beq_iff i j)

  pub get-insert :
      (m : HashMap K V) (k j : K) (v : V)
      → get (insert m k v) j ≡ (if k == j then some v else get m j)
  unfolding get insert
  get-insert m k j v = ground (arith, get-remove m k j)

  pub get-insert_self : (m : HashMap K V) (k : K) (v : V) → get (insert m k v) k ≡ some v
  get-insert_self m k v = ground (arith, get-insert m k k v, beq_refl k)

  pub get-remove_self : (m : HashMap K V) (k : K) → get (remove m k) k ≡ none
  get-remove_self m k = ground (arith, get-remove m k k, beq_refl k)

  -- One entry for each key.
  abbrev pub DistinctKeys : HashMap K V → Type κ
  DistinctKeys [] = Unit
  DistinctKeys ((k, v) ∷ m) = (get m k ≡ none) × DistinctKeys m

  pub remove-DistinctKeys : (m : HashMap K V) (k : K) → DistinctKeys m → DistinctKeys (remove m k)
  unfolding remove
  remove-DistinctKeys [] k d = tt
  remove-DistinctKeys ((j, v) ∷ m) k d =
      ground (arith, remove-DistinctKeys m k d.1, get-remove m k j)

  pub insert-DistinctKeys :
      (m : HashMap K V) (k : K) (v : V) → DistinctKeys m → DistinctKeys (insert m k v)
  unfolding insert
  insert-DistinctKeys m k v d = (get-remove_self m k, remove-DistinctKeys m k d)

  -- The keys as a set.
  pub contains-keys : (m : HashMap K V) (k : K) → contains (keys m) k ≡ contains_key m k
  unfolding get contains
  contains-keys [] k = refl
  contains-keys ((j, v) ∷ m) k = ground (arith, contains-keys m k)

  pub Distinct-keys : (m : HashMap K V) → DistinctKeys m → Distinct (keys m)
  Distinct-keys [] d = tt
  Distinct-keys ((k, v) ∷ m) d = ground (arith, Distinct-keys m d.1, contains-keys m k)

  pub length-values : (m : HashMap K V) → length (values m) ≡ length (keys m)
  length-values [] = refl
  length-values ((k, v) ∷ m) = ap suc (length-values m)

  -- The keys that remain lie in any set that had all of them, without the removed key too.
  pub keys-remove-subset :
      (m : HashMap K V) (k : K) (s : HashSet K)
      → is_subset (keys m) s ≡ true
      → is_subset (keys (remove m k)) (delete s k) ≡ true
  keys-remove-subset m k s h = is_subset_of (keys (remove m k)) (delete s k) λ a in_rest. ground (
    arith,
    contains-keys (remove m k) a,
    contains-keys m a,
    get-remove m k a,
    contains-delete s k a,
    is_subset-contains (keys m) s a h,
  )

  pub keys-insert-subset :
      (m : HashMap K V) (k : K) (v : V) (s : HashSet K)
      → contains s k ≡ true
      → is_subset (keys m) s ≡ true
      → is_subset (keys (insert m k v)) s ≡ true
  keys-insert-subset m k v s here h = is_subset_of (keys (insert m k v)) s λ a in_new. ground (
    arith,
    contains-keys (insert m k v) a,
    contains-keys m a,
    get-insert m k a v,
    e.beq_iff k a,
    is_subset-contains (keys m) s a h,
  )
