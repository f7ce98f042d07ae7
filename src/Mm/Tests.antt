-- ===== src/Mm/Tests.antt =====
-- Tests of mm/memory.c, and its theorems at concrete memories.
use neantis.Prelude.{ℕ, ◌≤◌, ◌<◌, ◌≡◌, refl, arith, ◌==◌, if◌then◌else◌}
use neantis.Mm.{
  Memory, scan, fill_used, clear_from, freed, already_free, get_free_page, free_page, mem_init,
  page_of, used,
}
use neantis.Mm.Alloc.{
  Taken, free_pages, count_free, get_free_page-Taken, free_page-get_free_page, free_page_lem,
}
use neantis.Mm.Init.{mem_init_lem, get_free_page-mem_init}

-- 16 MiB, of which pages 5 and 7 are free and hold ones
abbrev two_free : Memory
two_free = record {
  high_memory = 0x1000000;
  mem_map = λ i. if i == 5 then 0 else if i == 7 then 0 else 1;
  phys = λ a. 1;
}

abbrev none_free : Memory
none_free = record two_free { mem_map = λ i. used }

abbrev start_of_buffers : ℕ
start_of_buffers = 0x400000

two_free_count : free_pages two_free ≡ 2
unfolding count_free
two_free_count = refl

none_free_count : free_pages none_free ≡ 0
unfolding count_free
none_free_count = refl

some_free : 0 < free_pages two_free
some_free = omega (arith, two_free_count)

takes_the_highest : (get_free_page two_free).0 ≡ page_of 7
unfolding get_free_page scan
takes_the_highest = refl

get_free_page-Taken_example : (i : ℕ) × Taken two_free i
get_free_page-Taken_example = get_free_page-Taken two_free some_free

free_page-get_free_page_example :
    (m' : Memory) × (free_page (get_free_page two_free).0 (get_free_page two_free).1 ≡ freed m')
    × (m'.mem_map ≡ two_free.mem_map)
free_page-get_free_page_example = free_page-get_free_page two_free some_free (omega arith)

free_page_lem_example : free_page (page_of 5) two_free ≡ already_free two_free
free_page_lem_example = free_page_lem (page_of 5) two_free (omega arith)

-- The first page lies before the map.
from_below : (mem_init 0xff000 0x102000 two_free).mem_map 2 ≡ used
unfolding mem_init fill_used clear_from
from_below = refl

mem_init_lem_example : (mem_init start_of_buffers 0x1000000 two_free).mem_map 768 ≡ 0
mem_init_lem_example = mem_init_lem start_of_buffers 0x1000000 two_free 768 (omega arith)

get_free_page-mem_init_example :
    let page = (get_free_page (mem_init start_of_buffers 0x1000000 two_free)).0 in
    (0x400000 ≤ page) × (page < 0x1000000)
get_free_page-mem_init_example =
    get_free_page-mem_init start_of_buffers 0x1000000 two_free (omega arith) (omega arith)
      (omega arith)
