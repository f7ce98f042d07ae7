-- ===== src/Malloc/Carve.antt =====
-- lib/malloc.c: the objects of a new page.
use neantis.Prelude.{
  ℕ, zero, suc, ◌+◌, ◌-◌, ◌/◌, ◌<◌, ◌≡◌, refl, ap, ap₂, ◌∙◌, ◌≢◌, arith, List, [], ◌∷◌, ◌==◌, leb,
  ltb, ◌&&◌, if◌then◌else◌, update, update_self, ==_ne,
}
use neantis.Mm.{page_size, get_free_page}
use neantis.Malloc.{BucketDesc, Heap, ok, zero_desc, take_page, carve, install, new_bucket}

-- The objects of a free list, in its order.
unfoldable pub objects : ℕ → (ℕ → ℕ) → ℕ → List ℕ
objects zero link a = []
objects (suc n) link a = if a == 0 then [] else a ∷ objects n link (link a)

-- `n` addresses from `a` on, `size` apart.
unfoldable pub spaced : ℕ → ℕ → ℕ → List ℕ
spaced zero size a = []
spaced (suc n) size a = a ∷ spaced n size (a + size)

carve_below : (n size cp : ℕ) (link : ℕ → ℕ) (a : ℕ) → a < cp → carve n size cp link a ≡ link a
unfolding carve
carve_below zero size cp link a h = ground arith
carve_below (suc n) size cp link a h =
    carve_below n size (cp + size) (update link cp (cp + size)) a (omega arith) ∙ ground arith

objects-carve :
    (n size cp : ℕ) (link : ℕ → ℕ)
    → 0 < size
    → 0 < cp
    → objects (suc (suc n)) (carve n size cp link) cp ≡ spaced (suc n) size cp
unfolding objects spaced carve
objects-carve zero size cp link some_size real = rw (==_ne cp 0 (omega arith)) (ground arith)
objects-carve (suc n) size cp link some_size real =
    let at_cp : carve (suc n) size cp link cp ≡ cp + size =
      carve_below n size (cp + size) (update link cp (cp + size)) cp (omega arith) ∙ ground arith in
    rw (==_ne cp 0 (omega arith), at_cp)
      (ap (λ l. cp ∷ l)
        (objects-carve n size (cp + size) (update link cp (cp + size)) some_size (omega arith)))

take_page-some :
    (h : Heap)
    → let page = (get_free_page h.memory).0 in
      page ≢ 0
      → take_page h ≡ (
        page,
        record h {
          memory = (get_free_page h.memory).1;
          desc = λ b. if leb page b && ltb b (page + page_size) then zero_desc else h.desc b;
          link = λ a. if leb page a && ltb a (page + page_size) then 0 else h.link a;
        },
      )
unfolding take_page
take_page-some h real = rw (==_ne (get_free_page h.memory).0 0 real) refl

-- When there is a descriptor and a page left, `new_bucket` puts a new descriptor at the head of the
-- chain, whose free objects are the page cut into pieces of the bucket's size, from its start to its
-- end, each of them once.
pub new_bucket-objects :
    (i size : ℕ) (h : Heap)
    → 0 < size
    → 0 < page_size / size
    → h.free_bucket_desc ≢ 0
    → let page = (get_free_page h.memory).0 in
      page ≢ 0
      → let b = h.free_bucket_desc in
        (h' : Heap) × (new_bucket i size h ≡ ok b h')
        × (h'.chain ≡ update h.chain i b)
        × ((h'.desc b).next ≡ h.chain i)
        × ((h'.desc b).page ≡ page)
        × (objects (page_size / size + 1) h'.link (h'.desc b).freeptr
            ≡ spaced (page_size / size) size page)
unfolding new_bucket
new_bucket-objects i size h some_size fits real_desc real =
    let b = h.free_bucket_desc in
    let page = (get_free_page h.memory).0 in
    let h₂ : Heap = record h {
      free_bucket_desc = (h.desc b).next;
      desc = update h.desc b (record (h.desc b) { refcnt = 0; bucket_size = size });
    } in
    let h₃ : Heap = record h₂ {
      memory = (get_free_page h.memory).1;
      desc = λ b. if leb page b && ltb b (page + page_size) then zero_desc else h₂.desc b;
      link = λ a. if leb page a && ltb a (page + page_size) then 0 else h.link a;
    } in
    let r : BucketDesc = record (h₃.desc b) { page = page; freeptr = page; next = h.chain i } in
    let at_b = update_self h₃.desc b r in
    let n = page_size / size - 1 in
    (
      install i size b page h₃,
      rw (==_ne b 0 real_desc, new_bucket, take_page-some h₂ real, ==_ne page 0 real) refl,
      refl,
      ap (λ (r : BucketDesc). r.next) at_b,
      ap (λ (r : BucketDesc). r.page) at_b,
      ap₂ (λ f (r : BucketDesc). objects f (carve n size page h₃.link) r.freeptr) {y = suc (suc n)}
            (omega arith) at_b
          ∙ objects-carve n size page h₃.link some_size (omega arith)
          ∙ ap (λ f. spaced f size page) {y = page_size / size} (omega arith),
    )
