-- ===== src/Mm.antt =====
-- mm/memory.c: the map of the physical pages above 1 MiB, and who holds them.
-- The address of a page is a number; `phys` is the memory itself, byte by byte.
pub mod Alloc
pub mod Init
mod Tests
use neantis.Prelude.{
  ℕ, zero, suc, ◌+◌, ◌-◌, ◌*◌, ◌/◌, ◌^◌, Bool, true, false, ◌&&◌, Option, none, some, ltb, leb,
  ◌==◌, if◌then◌else◌, update,
}
use neantis.Prelude.Words.{u8, sub8}

abbrev pub low_mem : ℕ
low_mem = 0x100000

abbrev pub paging_memory : ℕ
paging_memory = 15 * 1024 * 1024

abbrev pub paging_pages : ℕ
paging_pages = paging_memory / 2 ^ 12

abbrev pub page_size : ℕ
page_size = 4096

-- `MAP_NR` of an address from LOW_MEM on; for the others `free_page` does nothing, and `mem_init`
-- counts with `before_map`.
abbrev pub map_nr : ℕ → ℕ
map_nr addr = (addr - low_mem) / 2 ^ 12

abbrev pub used : ℕ
used = 100

pub record Memory : Type 0 where
  pub high_memory : ℕ
  pub mem_map : ℕ → ℕ
  pub phys : ℕ → ℕ

-- `std ; repne ; scasb`: from index `n - 1` downwards, the first byte of the map that is 0.
unfoldable pub scan : (ℕ → ℕ) → ℕ → Option ℕ
scan m zero = none
scan m (suc n) = if m n == 0 then some n else scan m n

-- `rep ; stosl` over the 1024 words of a page
unfoldable pub clear_page : (ℕ → ℕ) → ℕ → ℕ → ℕ
clear_page mem page a = if leb page a && ltb a (page + page_size) then 0 else mem a

-- The address of the page of index `i`: `sall $12,%ecx ; addl LOW_MEM,%ecx`.
abbrev pub page_of : ℕ → ℕ
page_of i = i * 2 ^ 12 + low_mem

-- The result 0 says that there is no free page.
unfoldable pub get_free_page : Memory → ℕ × Memory
get_free_page m = elim (scan m.mem_map paging_pages) [
  | none ↦ (0, m)
  | some i ↦
      (page_of i, record m { mem_map = update m.mem_map i 1; phys = clear_page m.phys (page_of i) })
]

-- How a call ends: it returns, or the kernel stops with a message.
pub data Freed : Type 0 where
  freed : Memory → Freed
  no_such_page already_free : Memory → Freed

-- `if(mem_map[addr]--) return;` : the byte wraps, and is put back to 0 before the panic.
unfoldable pub free_page : ℕ → Memory → Freed
free_page addr m =
    if ltb addr low_mem
    then freed m
    else if leb m.high_memory addr
    then no_such_page m
    else let i = map_nr addr in
      let m' = record m { mem_map = update m.mem_map i (sub8 (m.mem_map i) 1) } in
      if m.mem_map i == 0
      then already_free (record m' { mem_map = update m'.mem_map i 0 })
      else freed m'

-- `for(i = 0; i < PAGING_PAGES; i++) mem_map[i] = USED`, with `n` the rounds left.
unfoldable pub fill_used : ℕ → ℕ → (ℕ → ℕ) → ℕ → ℕ
fill_used zero i m = m
fill_used (suc n) i m = fill_used n (i + 1) (update m i used)

-- `while(size-- > 0) mem_map[i++] = 0`
unfoldable pub clear_from : ℕ → ℕ → (ℕ → ℕ) → ℕ → ℕ
clear_from zero i m = m
clear_from (suc size) i m = clear_from size (i + 1) (update m i 0)

-- How many entries before the first one `i = MAP_NR(start_mem)` begins, where it is negative.
abbrev pub before_map : ℕ → ℕ
before_map start_mem = (low_mem - start_mem + (2 ^ 12 - 1)) / 2 ^ 12

-- A negative `size` makes no round, and `-` on ℕ stops at 0. With a negative `i` the first rounds
-- write before the map, to memory that the model does not have, and the others go on at entry 0.
unfoldable pub mem_init : ℕ → ℕ → Memory → Memory
mem_init start_mem end_mem m = record m {
  high_memory = end_mem;
  mem_map =
      clear_from ((end_mem - start_mem) / 2 ^ 12 - before_map start_mem) (map_nr start_mem)
        (fill_used paging_pages 0 m.mem_map);
}
