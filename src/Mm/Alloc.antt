-- ===== src/Mm/Alloc.antt =====
-- mm/memory.c: `get_free_page` against the set of free pages, and `free_page` as its inverse.
use neantis.Prelude.{
  ℕ, zero, suc, ◌+◌, ◌-◌, ◌^◌, ◌≤◌, ◌<◌, ◌≡◌, refl, inl, inr, ◌&&◌, none, some, arith, ltb, leb,
  ◌==◌, if◌then◌else◌, Bool-cases, update, update-ne, update-id, update-update,
}
use neantis.Prelude.Words.{sub8}
use neantis.Mm.{
  Memory, freed, no_such_page, already_free, scan, clear_page, get_free_page, free_page, page_of,
  map_nr, low_mem, paging_pages, page_size,
}

-- The number of free pages below index `n`.
unfoldable pub count_free : (ℕ → ℕ) → ℕ → ℕ
count_free m zero = 0
count_free m (suc n) = count_free m n + (if m n == 0 then 1 else 0)

-- What the scan finds is free, in range, and above it nothing is free.
record Found (m : ℕ → ℕ) (n i : ℕ) : Type 0 where
  in_range : i < n
  is_free : m i ≡ 0
  highest : count_free m n ≡ count_free m (suc i)

scan-some : (m : ℕ → ℕ) (n i : ℕ) → scan m n ≡ some i → Found m n i
unfolding scan count_free
scan-some m zero i e = absurd (ground arith)
scan-some m (suc n) i e = elim (Bool-cases (m n == 0)) [
  | inl free ↦
      let same : n ≡ i = ground arith in
      rw (← same) (record { in_range = omega arith; is_free = ground arith; highest = refl })
  | inr busy ↦
      let rest = scan-some m n i (ground arith) in
      record {
        in_range = omega (arith, rest.in_range);
        is_free = rest.is_free;
        highest = rw busy (omega (arith, rest.highest));
      }
]

pub scan_total : (m : ℕ → ℕ) (n : ℕ) → 0 < count_free m n → (i : ℕ) × (scan m n ≡ some i)
unfolding scan count_free
scan_total m zero h = absurd (omega arith)
scan_total m (suc n) h = elim (Bool-cases (m n == 0)) [
  | inl free ↦ (n, rw free)
  | inr busy ↦ rw busy (scan_total m n (ground arith))
]

count_free-zero : (m : ℕ → ℕ) (n : ℕ) → count_free m n ≡ 0 → scan m n ≡ none
unfolding scan count_free
count_free-zero m zero h = refl
count_free-zero m (suc n) h = ground (arith, count_free-zero m n)

pub count_free-pos : (m : ℕ → ℕ) (n i : ℕ) → i < n → m i ≡ 0 → 0 < count_free m n
unfolding count_free
count_free-pos m zero i h e = absurd (omega arith)
count_free-pos m (suc n) i h e = elim (Bool-cases (i == n)) [
  | inl same ↦ ground arith
  | inr other ↦ ground (arith, count_free-pos m n i)
]

-- An index that is not below `n` does not count.
count_free-update_ge :
    (m : ℕ → ℕ) (n i v : ℕ) → n ≤ i → count_free (update m i v) n ≡ count_free m n
unfolding count_free
count_free-update_ge m zero i v h = refl
count_free-update_ge m (suc n) i v h =
    ground (arith, count_free-update_ge m n i v, update-ne m i n v)

-- Writing `v` at `i` moves the count by what the entry was and by what it becomes.
pub count_free-update :
    (m : ℕ → ℕ) (n i v : ℕ)
    → i < n
    → count_free (update m i v) n + (if m i == 0 then 1 else 0)
      ≡ count_free m n + (if v == 0 then 1 else 0)
unfolding count_free
count_free-update m zero i v h = absurd (omega arith)
count_free-update m (suc n) i v h = elim (Bool-cases (i == n)) [
  | inl same ↦ ground (arith, count_free-update_ge m n i v)
  | inr other ↦ ground (arith, count_free-update m n i v)
]

abbrev pub free_pages : Memory → ℕ
free_pages m = count_free m.mem_map paging_pages

-- What `get_free_page` does to memory `m` when it hands out the page of index `i`.
pub record Taken (m : Memory) (i : ℕ) : Type 0 where
  pub in_range : i < paging_pages
  pub was_free : m.mem_map i ≡ 0
  pub highest : free_pages m ≡ count_free m.mem_map (suc i)
  pub address : (get_free_page m).0 ≡ page_of i
  pub counted : (get_free_page m).1.mem_map ≡ update m.mem_map i 1
  pub zeroed :
      (a : ℕ)
      → (get_free_page m).1.phys a
        ≡ (if leb (page_of i) a && ltb a (page_of i + page_size) then 0 else m.phys a)
  pub bound : (get_free_page m).1.high_memory ≡ m.high_memory

pub get_free_page-some : (m : Memory) (i : ℕ) → scan m.mem_map paging_pages ≡ some i → Taken m i
unfolding get_free_page clear_page
get_free_page-some m i e =
    let found = scan-some m.mem_map paging_pages i e in
    record {
      in_range = found.in_range;
      was_free = found.is_free;
      highest = found.highest;
      address = ground arith;
      counted = ground arith;
      zeroed = λ a. ground arith;
      bound = ground arith;
    }

-- As long as some page is free, `get_free_page` hands out the free page of the highest index, with
-- all its bytes 0, marks it as held once, and changes no other entry of the map and no byte
-- outside the page.
pub get_free_page-Taken : (m : Memory) → 0 < free_pages m → (i : ℕ) × Taken m i
get_free_page-Taken m h =
    let (i, e) = scan_total m.mem_map paging_pages h in (i, get_free_page-some m i e)

-- When no page is free, `get_free_page` returns 0 and changes nothing.
get_free_page-full : (m : Memory) → free_pages m ≡ 0 → get_free_page m ≡ (0, m)
unfolding get_free_page
get_free_page-full m h = rw (count_free-zero m.mem_map paging_pages h, get_free_page)

-- Each page handed out leaves one free page less.
free_pages-get_free_page :
    (m : Memory) → 0 < free_pages m → free_pages (get_free_page m).1 + 1 ≡ free_pages m
free_pages-get_free_page m h =
    let (i, t) = get_free_page-Taken m h in
    rw t.counted
      (ground (arith, count_free-update m.mem_map paging_pages i 1 t.in_range, t.was_free))

map_nr-page_of : (i : ℕ) → map_nr (page_of i) ≡ i
map_nr-page_of i = omega arith

-- `free_page` gives back what `get_free_page` took: the call returns, and the map is as before. It is
-- asked that some page is free, and that no page from HIGH_MEMORY on is marked as free.
pub free_page-get_free_page :
    (m : Memory)
    → 0 < free_pages m
    → ((i : ℕ) → i < paging_pages → m.mem_map i ≡ 0 → page_of i < m.high_memory)
    → (m' : Memory) × (free_page (get_free_page m).0 (get_free_page m).1 ≡ freed m')
      × (m'.mem_map ≡ m.mem_map)
unfolding free_page
free_page-get_free_page m h top =
    let (i, t) = get_free_page-Taken m h in
    let m₁ = (get_free_page m).1 in
    let below : page_of i < m.high_memory = top i t.in_range t.was_free in
    (
      record m₁ { mem_map = update m₁.mem_map i 0 },
      rw t.address (ground (arith, t.bound, below, t.counted, map_nr-page_of i)),
      rw t.counted (rw (update-update, ← t.was_free) (update-id m.mem_map i)),
    )

-- Below 1 MiB `free_page` does nothing; at an address above the memory, and at a page that nobody
-- holds, it stops the kernel and the map is as before; otherwise the page has one holder less.
pub free_page_lem :
    (addr : ℕ) (m : Memory)
    → m.mem_map (map_nr addr) < 2 ^ 8
    → free_page addr m ≡ (
        if ltb addr low_mem
        then freed m
        else if leb m.high_memory addr
        then no_such_page m
        else if m.mem_map (map_nr addr) == 0
        then already_free m
        else freed
            (record m { mem_map = update m.mem_map (map_nr addr) (m.mem_map (map_nr addr) - 1) }))
unfolding free_page
free_page_lem addr m h = ground (
  arith,
  update-update m.mem_map (map_nr addr) (sub8 (m.mem_map (map_nr addr)) 1) 0,
  update-id m.mem_map (map_nr addr),
)
