-- ===== src/Malloc/Free.antt =====
-- lib/malloc.c: `free_s`.
use neantis.Prelude.{
  ℕ, zero, suc, ◌+◌, ◌-◌, ◌%◌, not, ◌||◌, Option, none, some, List, [], ◌∷◌, ltb, ◌==◌,
  if◌then◌else◌, update,
}
use neantis.Prelude.Words.{sub16}
use neantis.Mm.{page_size, freed, no_such_page, already_free, free_page}
use neantis.Malloc.{Ptr, BucketDesc, Heap, Outcome, ok, panic, out_of_fuel, bucket_sizes}

-- What a search of the chains finds: the bucket's entry, `prev` and the descriptor.
pub data Search : Type 0 where
  found : ℕ → Ptr → Ptr → Search
  missing unfinished : Search

unfoldable pub find_page : ℕ → (Ptr → BucketDesc) → ℕ → ℕ → Ptr → Ptr → Search
find_page zero d i page prev b = unfinished
find_page (suc rounds) d i page prev b =
    if b == 0
    then missing
    else if (d b).page == page
    then found i prev b
    else find_page rounds d i page b (d b).next

-- The same over the buckets from entry `i` on whose objects have at least `size` bytes.
unfoldable pub search : ℕ → List ℕ → ℕ → ℕ → ℕ → Heap → Search
unfolding find_page
search rounds [] size page i h = missing
search rounds (s ∷ sizes) size page i h =
    let later = search rounds sizes size page (i + 1) h in
    if ltb s size then later else elim (find_page rounds h.desc i page 0 (h.chain i)) [
      | found j prev b ↦ found j prev b
      | missing ↦ later
      | unfinished ↦ unfinished
    ]

-- The descriptor of a chain whose next one is `b`, 0 if there is none.
unfoldable pub find_prev : ℕ → (Ptr → BucketDesc) → Ptr → Ptr → Option Ptr
find_prev zero d b prev = none
find_prev (suc rounds) d b prev =
    if prev == 0 || (d prev).next == b then some prev else find_prev rounds d b (d prev).next

-- The end of the descriptor `b`, once it is out of its chain.
unfoldable pub drop_page : Ptr → Heap → Outcome (Unit {0})
unfolding free_page
drop_page b h = elim (free_page (h.desc b).page h.memory) [
  | freed m ↦ ok tt (record h {
    memory = m;
    desc = update h.desc b (record (h.desc b) { next = h.free_bucket_desc });
    free_bucket_desc = b;
  })
  | no_such_page m ↦ panic (record h { memory = m })
  | already_free m ↦ panic (record h { memory = m })
]

-- Descriptor `b` of bucket `i` goes out of its chain, and its page back.
unfoldable pub release : ℕ → ℕ → Ptr → Ptr → Heap → Outcome (Unit {0})
unfolding find_prev drop_page
release rounds i prev b h =
    let stale = if prev == 0 then not (h.chain i == b) else not ((h.desc prev).next == b) in
    elim (if stale then find_prev rounds h.desc b (h.chain i) else some prev) [
      | none ↦ out_of_fuel
      | some prev ↦
          if not (prev == 0)
          then drop_page b (record h {
            desc = update h.desc prev (record (h.desc prev) { next = (h.desc b).next });
          })
          else if not (h.chain i == b)
          then panic h
          else drop_page b (record h { chain = update h.chain i (h.desc b).next })
    ]

-- Object `obj` goes back to its descriptor.
unfoldable pub put_object : ℕ → Ptr → Heap → Heap
put_object obj b h =
    let r = h.desc b in
    record h {
      link = update h.link obj r.freeptr;
      desc = update h.desc b (record r { freeptr = obj; refcnt = sub16 r.refcnt 1 });
    }

-- `size` is not negative.
unfoldable pub free_s : ℕ → ℕ → ℕ → Heap → Outcome (Unit {0})
unfolding search release
free_s rounds obj size h = elim (search rounds bucket_sizes size (obj - obj % page_size) 0 h) [
  | unfinished ↦ out_of_fuel
  | missing ↦ panic h
  | found i prev b ↦
      let h₁ = put_object obj b h in
      if (h₁.desc b).refcnt == 0 then release rounds i prev b h₁ else ok tt h₁
]
