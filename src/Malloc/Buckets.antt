-- ===== src/Malloc/Buckets.antt =====
-- lib/malloc.c: the bucket that a request goes to.
use neantis.Prelude.{
  ℕ, zero, suc, ◌+◌, ◌*◌, ◌≤◌, ◌<◌, ◌≡◌, refl, ◌⊎◌, inl, inr, arith, some, List, [], ◌∷◌, ◌++◌, leb,
  Bool-cases,
}
use neantis.Malloc.{bucket_sizes, bucket_for}

-- `n` sizes from `s` on, each twice the one before.
unfoldable doubling : ℕ → ℕ → List ℕ
doubling zero s = []
doubling (suc n) s = s ∷ doubling n (2 * s)

-- What the search ends with: a size that is enough and, but for the first, less than twice as much.
bucket_for-doubling :
    (n s len i : ℕ) (r : ℕ × ℕ)
    → bucket_for (doubling n s) len i ≡ some r
    → (len ≤ r.1) × ((r.1 ≡ s) ⊎ (r.1 < 2 * len))
unfolding bucket_for doubling
bucket_for-doubling zero s len i r e = absurd (ground (arith, e))
bucket_for-doubling (suc n) s len i r e = elim (Bool-cases (leb len s)) [
  | inl fits ↦ ground (arith, e, fits)
  | inr small ↦ ground (arith, bucket_for-doubling n (2 * s) len (i + 1) r, e, small)
]

bucket_for_total :
    (sizes : List ℕ) (top len i : ℕ)
    → len ≤ top
    → (r : ℕ × ℕ) × (bucket_for (sizes ++ top ∷ []) len i ≡ some r)
unfolding bucket_for
bucket_for_total [] top len i h = ((i, top), ground (arith, h))
bucket_for_total (s ∷ sizes) top len i h = elim (Bool-cases (leb len s)) [
  | inl fits ↦ ((i, s), rw fits refl)
  | inr small ↦ let (r, e) = bucket_for_total sizes top len (i + 1) h in (r, rw small e)
]

-- Every request of at most a page has a bucket: its objects are large enough and, unless they are
-- the smallest of 16 bytes, less than twice as large as needed.
bucket_for-fits :
    (len : ℕ)
    → len ≤ 4096
    → (r : ℕ × ℕ) × (bucket_for bucket_sizes len 0 ≡ some r)
      × (len ≤ r.1)
      × ((r.1 ≡ 16) ⊎ (r.1 < 2 * len))
unfolding doubling
bucket_for-fits len h =
    let (r, e) =
      bucket_for_total (16 ∷ 32 ∷ 64 ∷ 128 ∷ 256 ∷ 512 ∷ 1024 ∷ 2048 ∷ []) 4096 len 0 h in
    let (enough, close) = bucket_for-doubling 9 16 len 0 r e in (r, e, enough, close)
