-- ===== src/Malloc/Return.antt =====
-- lib/malloc.c: an object that is taken and given back at once.
use neantis.Prelude.{
  ℕ, zero, suc, ◌+◌, ◌-◌, ◌%◌, ◌^◌, ◌<◌, ◌≡◌, refl, sym, ap, ap₂, ◌∙◌, ◌≢◌, arith, some, List, [],
  ◌∷◌, ◌==◌, leb, ltb, true, false, update, ==_ne, update_self, update-id, update-update, subst,
  Bool-cases, inl, inr,
}
use neantis.Prelude.Words.{u16, sub16}
use neantis.Mm.{page_size}
use mathlib.Core.Option.{some-injective}
use neantis.Malloc.{
  Ptr, BucketDesc, Heap, ok, bucket_sizes, bucket_for, and_then, find_free, take_object, malloc,
}
use neantis.Malloc.Free.{put_object, found, find_page, search, free_s}

-- The search of `free_s` looks first at the bucket that `malloc` takes for the same size.
search-bucket_for :
    (rounds len page j i : ℕ) (size prev b : ℕ) (sizes : List ℕ) (h : Heap)
    → bucket_for sizes len j ≡ some (i, size)
    → find_page rounds h.desc i page 0 (h.chain i) ≡ found i prev b
    → search rounds sizes len page j h ≡ found i prev b
unfolding bucket_for search
search-bucket_for rounds len page j i size prev b [] h e f = absurd (ground (arith, e))
search-bucket_for rounds len page j i size prev b (s ∷ sizes) h e f =
    elim (Bool-cases (leb len s)) [
      | inl fits ↦ first fits (some-injective (j, s) (i, size) (sym (at_head fits) ∙ e))
      | inr small ↦ later small (
          search-bucket_for rounds len page (j + 1) i size prev b sizes h (sym (below small) ∙ e) f)
    ]
  where
    at_head : leb len s ≡ true → bucket_for (s ∷ sizes) len j ≡ some (j, s)
    at_head fits = rw fits refl

    below : leb len s ≡ false → bucket_for (s ∷ sizes) len j ≡ bucket_for sizes len (j + 1)
    below small = rw small refl

    not_below : leb len s ≡ true → ltb s len ≡ false
    not_below fits = ground (arith, fits)

    is_below : leb len s ≡ false → ltb s len ≡ true
    is_below small = ground (arith, small)

    first :
        leb len s ≡ true
        → ◌≡◌ {A = ℕ × ℕ} (j, s) (i, size)
        → search rounds (s ∷ sizes) len page j h ≡ found i prev b
    first fits same =
        let here : j ≡ i = ap (λ (r : ℕ × ℕ). r.0) same in
        let hit : find_page rounds h.desc j page 0 (h.chain j) ≡ found j prev b =
          subst (λ i. find_page rounds h.desc i page 0 (h.chain i) ≡ found i prev b) (sym here) f in
        rw (not_below fits, hit) (ap (λ i. found i prev b) here)

    later :
        leb len s ≡ false
        → search rounds sizes len page (j + 1) h ≡ found i prev b
        → search rounds (s ∷ sizes) len page j h ≡ found i prev b
    later small rest = rw (is_below small) rest

find_free-head :
    (rounds : ℕ) (d : Ptr → BucketDesc) (b : Ptr)
    → (d b).freeptr ≢ 0
    → find_free (suc rounds) d b ≡ some b
unfolding find_free
find_free-head rounds d b free = elim (Bool-cases (b == 0)) [
  | inl none_there ↦ rw none_there refl
  | inr real ↦ rw (real, ==_ne (d b).freeptr 0 free) refl
]

find_page-head :
    (rounds : ℕ) (d : Ptr → BucketDesc) (i page prev b : ℕ)
    → b ≢ 0
    → (d b).page ≡ page
    → find_page (suc rounds) d i page prev b ≡ found i prev b
unfolding find_page
find_page-head rounds d i page prev b real same =
    rw (==_ne b 0 real, ==_same (d b).page page same) refl
  where
    ==_same : (x y : ℕ) → x ≡ y → (x == y) ≡ true
    ==_same x y h = ground arith

-- Giving the object back undoes taking it.
put_object-undo :
    (b : Ptr) (h : Heap)
    → 0 < (h.desc b).refcnt
    → (h.desc b).refcnt + 1 < 2 ^ 16
    → let r = h.desc b in
      put_object r.freeptr b (record h {
        desc =
            update h.desc b (record r { freeptr = h.link r.freeptr; refcnt = u16 (r.refcnt + 1) });
      })
      ≡ h
unfolding put_object
put_object-undo b h used few =
    let r = h.desc b in
    let obj = r.freeptr in
    let r' : BucketDesc = record r { freeptr = h.link obj; refcnt = u16 (r.refcnt + 1) } in
    let at_b = update_self h.desc b r' in
    let links : update h.link obj ((update h.desc b r') b).freeptr ≡ h.link =
      ap (λ (r : BucketDesc). update h.link obj r.freeptr) at_b ∙ update-id h.link obj in
    let back : BucketDesc → BucketDesc =
      λ q. record q { freeptr = obj; refcnt = sub16 q.refcnt 1 } in
    let same : back r' ≡ r = ap (λ c. record r { refcnt = c }) {y = r.refcnt} (omega arith) in
    let descs : update (update h.desc b r') b (back ((update h.desc b r') b)) ≡ h.desc =
      update-update h.desc b r' _
      ∙ ap (λ q. update h.desc b (back q)) at_b
      ∙ ap (update h.desc b) same
      ∙ update-id h.desc b in
    ap₂ (λ l d. record h { link = l; desc = d }) links descs

-- When the first page of the bucket has a free object, `malloc` hands out the first one, and
-- `free_s`, called with the same size at once, leaves the heap as it was before both calls.
pub free_s-malloc :
    (rounds len i size : ℕ) (h : Heap)
    → 0 < rounds
    → bucket_for bucket_sizes len 0 ≡ some (i, size)
    → let b = h.chain i in
      b ≢ 0
      → let r = h.desc b in
        r.freeptr ≢ 0
        → r.page ≡ r.freeptr - r.freeptr % page_size
        → 0 < r.refcnt
        → r.refcnt + 1 < 2 ^ 16
        → (h' : Heap) × (malloc rounds len h ≡ ok r.freeptr h')
          × (free_s rounds r.freeptr len h' ≡ ok tt h)
unfolding malloc take_object free_s
free_s-malloc zero len i size h some_rounds e real free same_page used few = absurd (omega arith)
free_s-malloc (suc rounds) len i size h some_rounds e real free same_page used few =
    let b = h.chain i in
    let r = h.desc b in
    let obj = r.freeptr in
    let r' : BucketDesc = record r { freeptr = h.link obj; refcnt = u16 (r.refcnt + 1) } in
    let h' : Heap = record h { desc = update h.desc b r' } in
    let seen : find_page (suc rounds) h'.desc i (obj - obj % page_size) 0 (h.chain i)
        ≡ found i 0 b =
      find_page-head rounds h'.desc i (obj - obj % page_size) 0 b real
        (ap (λ (q : BucketDesc). q.page) (update_self h.desc b r') ∙ same_page) in
    (
      h',
      rw (malloc, e, find_free-head rounds h.desc b free, ==_ne b 0 real, and_then, take_object)
          refl,
      rw
          (
            free_s,
            search-bucket_for (suc rounds) len (obj - obj % page_size) 0 i size 0 b bucket_sizes h'
                e seen,
            put_object-undo b h used few,
            ==_ne r.refcnt 0 (omega arith),
          )
          refl,
    )
