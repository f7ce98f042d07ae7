-- ===== src/Malloc.antt =====
-- lib/malloc.c: the kernel's own memory, in buckets of objects of one size. A descriptor and the
-- first word of a free object are entries of tables, by their addresses; a page that
-- `get_free_page` clears is cleared there. Entry 9 of `bucket_dir`, of size 0, is the end of the list.
pub mod Carve
pub mod Buckets
pub mod Free
pub mod Return
mod Tests
use neantis.Prelude.{
  ℕ, zero, suc, ◌+◌, ◌-◌, ◌*◌, ◌/◌, ◌%◌, ◌^◌, Bool, true, false, not, ◌&&◌, ◌||◌, Option, none,
  some, List, [], ◌∷◌, ltb, leb, ◌==◌, if◌then◌else◌, update,
}
use neantis.Prelude.Words.{u16, sub16}
use neantis.Mm.{
  Memory, page_size, get_free_page, Freed, freed, no_such_page, already_free, free_page,
}

abbrev pub Ptr : Type 0
Ptr = ℕ

pub record BucketDesc : Type 0 where
  pub page : ℕ
  pub next : Ptr
  pub freeptr : ℕ
  pub refcnt : ℕ
  pub bucket_size : ℕ

abbrev pub zero_desc : BucketDesc
zero_desc = record { page = 0; next = 0; freeptr = 0; refcnt = 0; bucket_size = 0 }

-- `sizeof(struct bucket_desc)`
abbrev pub desc_size : ℕ
desc_size = 16

-- `chain` is that of `bucket_dir`, and `link` the first word of a free object.
pub record Heap : Type 0 where
  pub memory : Memory
  pub chain : ℕ → Ptr
  pub desc : Ptr → BucketDesc
  pub free_bucket_desc : Ptr
  pub link : ℕ → ℕ

pub data Outcome (A : Type 0) : Type 0 where
  ok : A → Heap → Outcome A
  panic : Heap → Outcome A
  out_of_fuel : Outcome A

module _ {A B : Type 0} where
  abbrev pub and_then : Outcome A → (A → Heap → Outcome B) → Outcome B
  and_then (ok a h) f = f a h
  and_then (panic h) f = panic h
  and_then out_of_fuel f = out_of_fuel

-- `bucket_dir`
abbrev pub bucket_sizes : List ℕ
bucket_sizes = 16 ∷ 32 ∷ 64 ∷ 128 ∷ 256 ∷ 512 ∷ 1024 ∷ 2048 ∷ 4096 ∷ []

-- `get_free_page`, with the tables cleared in the page.
unfoldable pub take_page : Heap → ℕ × Heap
unfolding get_free_page
take_page h =
    let taken = get_free_page h.memory in
    let page = taken.0 in
    if page == 0 then (0, h) else (
      page,
      record h {
        memory = taken.1;
        desc = λ b. if leb page b && ltb b (page + page_size) then zero_desc else h.desc b;
        link = λ a. if leb page a && ltb a (page + page_size) then 0 else h.link a;
      },
    )

-- The loop of `init_bucket_desc`, with `n` rounds left, and the assignment behind it.
unfoldable pub chain_descs : ℕ → Ptr → Ptr → (Ptr → BucketDesc) → Ptr → BucketDesc
chain_descs zero b last d = update d b (record (d b) { next = last })
chain_descs (suc n) b last d =
    chain_descs n (b + desc_size) last (update d b (record (d b) { next = b + desc_size }))

unfoldable pub init_bucket_desc : Heap → Outcome (Unit {0})
unfolding take_page chain_descs
init_bucket_desc h =
    let first = (take_page h).0 in
    let h₁ = (take_page h).1 in
    if first == 0
    then panic h₁
    else ok tt (record h₁ {
      desc = chain_descs (page_size / desc_size - 1) first h₁.free_bucket_desc h₁.desc;
      free_bucket_desc = first;
    })

-- The first bucket from entry `i` on whose objects have `len` bytes: its entry and its size.
unfoldable pub bucket_for : List ℕ → ℕ → ℕ → Option (ℕ × ℕ)
bucket_for [] len i = none
bucket_for (size ∷ sizes) len i =
    if leb len size then some (i, size) else bucket_for sizes len (i + 1)

-- The first descriptor of a chain that has a free object, 0 if there is none; without a result when
-- `rounds` do not suffice.
unfoldable pub find_free : ℕ → (Ptr → BucketDesc) → Ptr → Option Ptr
find_free zero d b = none
find_free (suc rounds) d b =
    if b == 0 || not ((d b).freeptr == 0) then some b else find_free rounds d (d b).next

-- The loop that links the objects of a page, with `n` rounds left, and the word behind it.
unfoldable pub carve : ℕ → ℕ → ℕ → (ℕ → ℕ) → ℕ → ℕ
carve zero size cp link = update link cp 0
carve (suc n) size cp link = carve n size (cp + size) (update link cp (cp + size))

-- Descriptor `b` for the page `cp` at the head of the chain of bucket `i`.
abbrev pub install : ℕ → ℕ → Ptr → ℕ → Heap → Heap
install i size b cp h = record h {
  link = carve (page_size / size - 1) size cp h.link;
  desc = update h.desc b (record (h.desc b) { page = cp; freeptr = cp; next = h.chain i });
  chain = update h.chain i b;
}

-- A new page for bucket `i`, and its descriptor.
unfoldable pub new_bucket : ℕ → ℕ → Heap → Outcome Ptr
unfolding init_bucket_desc take_page carve
new_bucket i size h =
    and_then (if h.free_bucket_desc == 0 then init_bucket_desc h else ok tt h) λ _ h₁.
      let b = h₁.free_bucket_desc in
      let h₂ : Heap = record h₁ {
        free_bucket_desc = (h₁.desc b).next;
        desc = update h₁.desc b (record (h₁.desc b) { refcnt = 0; bucket_size = size });
      } in
      let cp = (take_page h₂).0 in
      let h₃ = (take_page h₂).1 in
      if cp == 0
      then panic
          (record h₃ { desc = update h₃.desc b (record (h₃.desc b) { page = cp; freeptr = cp }) })
      else ok b (install i size b cp h₃)

-- The first free object of descriptor `b`.
unfoldable pub take_object : Ptr → Heap → Outcome ℕ
take_object b h =
    let r = h.desc b in
    ok r.freeptr (record h {
      desc = update h.desc b (record r { freeptr = h.link r.freeptr; refcnt = u16 (r.refcnt + 1) });
    })

-- `rounds` bounds the walk along a chain.
unfoldable pub malloc : ℕ → ℕ → Heap → Outcome ℕ
unfolding bucket_for find_free new_bucket take_object
malloc rounds len h = elim (bucket_for bucket_sizes len 0) [
  | none ↦ panic h
  | some (i, size) ↦ elim (find_free rounds h.desc (h.chain i)) [
    | none ↦ out_of_fuel
    | some b ↦ and_then (if b == 0 then new_bucket i size h else ok b h) λ b h₁. take_object b h₁
  ]
]
