-- ===== src/Mm/Init.antt =====
-- mm/memory.c: the map that `mem_init` leaves, and the pages that can be handed out after it.
use neantis.Prelude.{
  ℕ, zero, suc, ◌+◌, ◌-◌, ◌/◌, ◌^◌, ◌≤◌, ◌<◌, ◌≡◌, ◌&&◌, arith, ltb, leb, if◌then◌else◌, update,
}
use neantis.Mm.{
  Memory, fill_used, clear_from, mem_init, before_map, map_nr, page_of, used, low_mem, paging_pages,
  get_free_page, page_size, paging_memory,
}
use neantis.Mm.Alloc.{count_free-pos, get_free_page-Taken}

clear_from_lem :
    (size i : ℕ) (m : ℕ → ℕ) (j : ℕ)
    → clear_from size i m j ≡ (if leb i j && ltb j (i + size) then 0 else m j)
unfolding clear_from
clear_from_lem zero i m j = ground arith
clear_from_lem (suc size) i m j = ground (arith, clear_from_lem size (i + 1) (update m i 0) j)

fill_used_lem :
    (n i : ℕ) (m : ℕ → ℕ) (j : ℕ)
    → fill_used n i m j ≡ (if leb i j && ltb j (i + n) then used else m j)
unfolding fill_used
fill_used_lem zero i m j = ground arith
fill_used_lem (suc n) i m j = ground (arith, fill_used_lem n (i + 1) (update m i used) j)

-- After `mem_init` a page of the map is free when it is one of the pages from that of `start_mem` on,
-- as many as there are whole pages between `start_mem` and `end_mem`; all others of the map are in
-- use. Pages are counted from address 0, so that `start_mem` may lie below the map.
pub mem_init_lem :
    (start_mem end_mem : ℕ) (m : Memory) (j : ℕ)
    → j < paging_pages
    → (mem_init start_mem end_mem m).mem_map j ≡ (
        if leb (start_mem / page_size) (page_of j / page_size)
          && ltb (page_of j / page_size) (start_mem / page_size + (end_mem - start_mem) / page_size)
        then 0
        else used)
unfolding mem_init
mem_init_lem s e m j h = ground (
  arith,
  clear_from_lem ((e - s) / 2 ^ 12 - before_map s) (map_nr s) (fill_used paging_pages 0 m.mem_map)
      j,
  fill_used_lem paging_pages 0 m.mem_map j,
)

-- No page that `mem_init` frees lies at `end_mem` or behind it.
free-mem_init :
    (start_mem end_mem : ℕ) (m : Memory) (i : ℕ)
    → i < paging_pages
    → (mem_init start_mem end_mem m).mem_map i ≡ 0
    → page_of i < (mem_init start_mem end_mem m).high_memory
unfolding mem_init
free-mem_init s e m i h free = ground (arith, mem_init_lem s e m i h, free)

-- With a page of memory between `start_mem` and `end_mem`, both within what the map covers, the first
-- page that the kernel hands out after `mem_init` lies between `start_mem`, rounded down to a page,
-- and `end_mem`.
pub get_free_page-mem_init :
    (start_mem end_mem : ℕ) (m : Memory)
    → low_mem ≤ start_mem
    → start_mem + page_size ≤ end_mem
    → end_mem ≤ low_mem + paging_memory
    → let page = (get_free_page (mem_init start_mem end_mem m)).0 in
      (page_of (map_nr start_mem) ≤ page) × (page < end_mem)
get_free_page-mem_init s e m low room top =
    let first : (mem_init s e m).mem_map (map_nr s) ≡ 0 =
      ground (arith, mem_init_lem s e m (map_nr s) (omega arith)) in
    let (i, t) =
      get_free_page-Taken (mem_init s e m)
        (count_free-pos (mem_init s e m).mem_map paging_pages (map_nr s) (omega arith) first) in
    rw t.address (ground (arith, mem_init_lem s e m i t.in_range, t.was_free))
