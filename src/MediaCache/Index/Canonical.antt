-- ===== src/MediaCache/Index/Canonical.antt =====
-- src/media_cache.rs: a RangeIndex stands for a set of bytes, and is determined by it.
use link_ear.Prelude.{
  ℕ, suc, ◌+◌, ◌≤◌, ◌≡◌, refl, sym, ap, ◌||◌, List, [], ◌∷◌, arith, string_eq, nat_eq, bool_eq,
  option_eq, All,
}
use mathlib.Core.Path.{subst}
use link_ear.MediaCache.{ByteRange, IsRange}
use link_ear.MediaCache.Index.{RangeIndex, default, insert}
use link_ear.MediaCache.Index.Normal.{
  holds, cached, Apart, IsNormal, insert-IsNormal, cached-insert,
}
use link_ear.MediaCache.Index.Bytes.{Apart-holds, not_held}

-- The first range starts at the first byte that is held.
first_start-le :
    (bound : ℕ) (x y : ByteRange) (xs ys : List ByteRange)
    → Apart bound (x ∷ xs)
    → Apart bound (y ∷ ys)
    → ((offset : ℕ) → holds (x ∷ xs) offset ≡ holds (y ∷ ys) offset)
    → y.start ≤ x.start
first_start-le bound x y xs ys a b h =
    ground (arith, h x.start, Apart-holds (y.end_inclusive + 2) ys x.start)

first_end-le :
    (bound : ℕ) (x y : ByteRange) (xs ys : List ByteRange)
    → Apart bound (x ∷ xs)
    → Apart bound (y ∷ ys)
    → ((offset : ℕ) → holds (x ∷ xs) offset ≡ holds (y ∷ ys) offset)
    → x.start ≡ y.start
    → y.end_inclusive ≤ x.end_inclusive
first_end-le bound x y xs ys a b h e =
    ground (arith, h (suc x.end_inclusive), not_held (x.end_inclusive + 2) xs (suc x.end_inclusive))

same_ranges :
    (bound : ℕ) (xs ys : List ByteRange)
    → Apart bound xs
    → Apart bound ys
    → ((offset : ℕ) → holds xs offset ≡ holds ys offset)
    → xs ≡ ys
same_ranges bound [] [] a b h = refl
same_ranges bound [] (y ∷ ys) a b h = ground (arith, h y.start)
same_ranges bound (x ∷ xs) [] a b h = ground (arith, h x.start)
same_ranges bound (x ∷ xs) (y ∷ ys) a b h =
    let back = λ (offset : ℕ). sym (h offset) in
    let starts : x.start ≡ y.start =
      omega
        (arith, first_start-le bound x y xs ys a b h, first_start-le bound y x ys xs b a back) in
    let ends : x.end_inclusive ≡ y.end_inclusive = omega (
      arith,
      first_end-le bound x y xs ys a b h starts,
      first_end-le bound y x ys xs b a back (sym starts),
    ) in
    let rest =
      same_ranges (x.end_inclusive + 2) xs ys a.2 (subst (λ e. Apart (e + 2) ys) (sym ends) b.2)
        λ offset. ground (
          arith,
          h offset,
          Apart-holds (x.end_inclusive + 2) xs offset,
          Apart-holds (y.end_inclusive + 2) ys offset,
        ) in
    ground arith

-- An index in order is determined by the bytes on disk: what is inserted, in which order and how often,
-- shows only in these.
pub same_bytes-eq :
    (i j : RangeIndex)
    → IsNormal i
    → IsNormal j
    → ((offset : ℕ) → cached i offset ≡ cached j offset)
    → i ≡ j
same_bytes-eq i j n m h = ap (λ rs. record { ranges = rs }) (same_ranges 0 i.ranges j.ranges n m h)

abbrev pub insert_all : RangeIndex → List ByteRange → RangeIndex
insert_all index [] = index
insert_all index (r ∷ rs) = insert_all (insert index r) rs

insert_all-cached :
    (index : RangeIndex) (rs : List ByteRange)
    → IsNormal index
    → All IsRange rs
    → IsNormal (insert_all index rs)
      × ((offset : ℕ)
          → cached (insert_all index rs) offset ≡ (holds rs offset || cached index offset))
insert_all-cached index [] n v = (n, (λ offset. refl))
insert_all-cached index (r ∷ rs) n v =
    let (normal, bytes) =
      insert_all-cached (insert index r) rs (insert-IsNormal index r n v.0) v.1 in
    (normal, (λ offset. ground (arith, bytes offset, cached-insert index r offset n v.0)))

-- After any insertions of ranges into a new index, its ranges stand in order, each with a gap before the
-- next, and hold exactly the bytes of the ranges that were inserted.
pub insert_all_refines :
    (rs : List ByteRange)
    → All IsRange rs
    → IsNormal (insert_all default rs)
      × ((offset : ℕ) → cached (insert_all default rs) offset ≡ holds rs offset)
unfolding default
insert_all_refines rs v =
    let (normal, bytes) = insert_all-cached default rs tt v in
    (normal, (λ offset. ground (arith, bytes offset)))

-- Two ranges that are inserted in either order leave the same index.
pub insert_comm :
    (index : RangeIndex) (r s : ByteRange)
    → IsNormal index
    → IsRange r
    → IsRange s
    → insert (insert index r) s ≡ insert (insert index s) r
insert_comm index r s n v w =
    let with_r = insert-IsNormal index r n v in
    let with_s = insert-IsNormal index s n w in
    same_bytes-eq (insert (insert index r) s) (insert (insert index s) r)
      (insert-IsNormal (insert index r) s with_r w) (insert-IsNormal (insert index s) r with_s v)
      λ offset. ground (
        arith,
        cached-insert (insert index r) s offset with_r w,
        cached-insert index r offset n v,
        cached-insert (insert index s) r offset with_s v,
        cached-insert index s offset n w,
      )
