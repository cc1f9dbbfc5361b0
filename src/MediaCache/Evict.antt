-- ===== src/MediaCache/Evict.antt =====
-- src/media_cache.rs: the oldest files are removed until the cache fits.
use link_ear.Prelude.{
  ℕ, zero, suc, ◌+◌, ◌-◌, ◌≤◌, ◌<◌, String, ◌≡◌, refl, sym, inl, inr, Bool, true, false, List, [],
  ◌∷◌, arith, ltb, leb, if◌then◌else◌, Bool-cases, string_eq, nat_eq, bool_eq, option_eq, take, All,
}

-- Files with their length and the time of their last change. The walk over the directories that collects
-- them is not modelled.
pub record CacheFile : Type 0 where
  pub path : String
  pub len : ℕ
  pub modified : ℕ

abbrev pub total_len : List CacheFile → ℕ
total_len [] = 0
total_len (e ∷ es) = e.len + total_len es

-- `sort_by_key` is stable.
abbrev insert_by_age : CacheFile → List CacheFile → List CacheFile
insert_by_age e [] = e ∷ []
insert_by_age e (x ∷ xs) =
    let rest = x ∷ insert_by_age e xs in if ltb x.modified e.modified then rest else e ∷ x ∷ xs

unfoldable pub sort_by_age : List CacheFile → List CacheFile
sort_by_age [] = []
sort_by_age (e ∷ es) = insert_by_age e (sort_by_age es)

-- Whether `remove_file` succeeds at a path.
module _ (removes : String → Bool) where
  -- The loop: the total that is left, and the bytes that were removed.
  abbrev pub evict_from : ℕ → ℕ → ℕ → List CacheFile → ℕ × ℕ
  evict_from max_bytes total removed [] = (total, removed)
  evict_from max_bytes total removed (e ∷ es) =
      let taken = evict_from max_bytes (total - e.len) (removed + e.len) es in
      let kept = evict_from max_bytes total removed es in
      if leb total max_bytes then (total, removed) else if removes e.path then taken else kept

  -- The bytes removed.
  unfoldable pub evict_cache : List CacheFile → ℕ → ℕ
  unfolding sort_by_age
  evict_cache entries max_bytes =
      let total = total_len entries in
      if leb total max_bytes then 0 else (evict_from max_bytes total 0 (sort_by_age entries)).1

  abbrev pub Removable : List CacheFile → Type 0
  Removable es = All (λ e. removes e.path ≡ true) es

  insert_by_age-total :
      (e : CacheFile) (es : List CacheFile) → total_len (insert_by_age e es) ≡ e.len + total_len es
  insert_by_age-total e [] = refl
  insert_by_age-total e (x ∷ xs) = ground (arith, insert_by_age-total e xs)

  sort_by_age-total : (es : List CacheFile) → total_len (sort_by_age es) ≡ total_len es
  unfolding sort_by_age
  sort_by_age-total [] = refl
  sort_by_age-total (e ∷ es) =
      omega (arith, insert_by_age-total e (sort_by_age es), sort_by_age-total es)

  insert_by_age-Removable :
      (e : CacheFile) (es : List CacheFile)
      → removes e.path ≡ true
      → Removable es
      → Removable (insert_by_age e es)
  insert_by_age-Removable e [] h r = (h, tt)
  insert_by_age-Removable e (x ∷ xs) h r = ground (arith, insert_by_age-Removable e xs)

  sort_by_age-Removable : (es : List CacheFile) → Removable es → Removable (sort_by_age es)
  unfolding sort_by_age
  sort_by_age-Removable [] r = tt
  sort_by_age-Removable (e ∷ es) r =
      insert_by_age-Removable e (sort_by_age es) r.0 (sort_by_age-Removable es r.1)

  -- The first `k` files are removed, and no fewer would do.
  abbrev pub RemovesFirst : ℕ → ℕ → List CacheFile → ℕ → Type 0
  RemovesFirst max_bytes total es k =
      (total - total_len (take k es) ≤ max_bytes)
      × ((j : ℕ) → j < k → max_bytes < total - total_len (take j es))

  more_needed :
      (max_bytes total : ℕ) (e : CacheFile) (es : List CacheFile) (k : ℕ)
      → leb total max_bytes ≡ false
      → ((j : ℕ) → j < k → max_bytes < (total - e.len) - total_len (take j es))
      → (j : ℕ) → j < suc k
      → max_bytes < total - total_len (take j (e ∷ es))
  more_needed max_bytes total e es k over least zero l = ground arith
  more_needed max_bytes total e es k over least (suc j) l = ground (arith, least j)

  evict_from_lem :
      (max_bytes total removed : ℕ) (es : List CacheFile)
      → total ≡ total_len es
      → Removable es
      → (k : ℕ) × ((evict_from max_bytes total removed es).1 ≡ removed + total_len (take k es))
        × RemovesFirst max_bytes total es k
  evict_from_lem max_bytes total removed [] h r =
      (0, omega arith, (omega arith, (λ j l. elim l [ ])))
  evict_from_lem max_bytes total removed (e ∷ es) h r = elim (Bool-cases (leb total max_bytes)) [
    | inl fits ↦ (0, ground arith, (ground arith, (λ j l. elim l [ ])))
    | inr over ↦
        let (k, out, (enough, least)) =
          evict_from_lem max_bytes (total - e.len) (removed + e.len) es (omega arith) r.1 in
        (suc k, ground arith, (omega arith, more_needed max_bytes total e es k over least))
  ]

  -- Where all files can be removed, evicting removes the oldest files, as many as it takes for the rest to
  -- fit, no more, and answers how many bytes they had.
  pub evict_cache_lem :
      (entries : List CacheFile) (max_bytes : ℕ)
      → Removable entries
      → (k : ℕ) × (evict_cache entries max_bytes ≡ total_len (take k (sort_by_age entries)))
        × RemovesFirst max_bytes (total_len entries) (sort_by_age entries) k
  unfolding evict_cache
  evict_cache_lem entries max_bytes r = elim (Bool-cases (leb (total_len entries) max_bytes)) [
    | inl fits ↦ (0, ground arith, (ground arith, (λ j l. elim l [ ])))
    | inr over ↦
        let (k, out, first) =
          evict_from_lem max_bytes (total_len entries) 0 (sort_by_age entries)
            (sym (sort_by_age-total entries)) (sort_by_age-Removable entries r) in
        (k, ground arith, first)
  ]
