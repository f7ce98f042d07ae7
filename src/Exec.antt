-- ===== src/Exec.antt =====
-- fs/exec.c: the arguments of a new program. `fs` is the memory that get_fs_byte and the others read
-- and write, and `f` bounds the words or bytes that a loop may look at.
pub mod Tables
pub mod Copies
pub mod Frames
pub mod Image
pub mod Layout
pub mod Script
pub mod Ldt
pub mod Pages
pub mod Become
pub mod Load
mod Tests
use neantis.Prelude.{
  ℕ, zero, suc, ◌+◌, ◌-◌, ◌*◌, ◌/◌, ◌%◌, ◌^◌, Bool, ◌==◌, if◌then◌else◌, update, Option, some, none,
}
use neantis.Prelude.Words.{sub32}
use neantis.Mm.{Memory, page_size, get_free_page}
use neantis.Fs.Bytes.{load32, store32}
use neantis.Strings.{Bytes}

-- The loop of `count`, behind the `i` words before.
unfoldable pub count_words : ℕ → Bytes → ℕ → ℕ → Option ℕ
unfolding load32
count_words zero fs tmp i = none
count_words (suc f) fs tmp i =
    if load32 fs tmp == 0 then some i else count_words f fs (tmp + 4) (i + 1)

unfoldable pub count : ℕ → Bytes → ℕ → Option ℕ
unfolding count_words
count f fs argv = if argv == 0 then some 0 else count_words f fs argv 0

-- `while(get_fs_byte(p++));` : the address behind the 0.
unfoldable pub behind : ℕ → Bytes → ℕ → Option ℕ
behind zero fs p = none
behind (suc f) fs p = if fs p == 0 then some (p + 1) else behind f fs (p + 1)

-- One of the two loops of `create_tables`, and the 0 behind its table: `n` strings from `p` on get
-- their words at `table`. It gives the memory and the address behind the strings.
unfoldable pub put_table : ℕ → ℕ → Bytes → ℕ → ℕ → Option (Bytes × ℕ)
unfolding behind store32
put_table f zero fs p table = some (store32 fs table 0, p)
put_table f (suc n) fs p table =
    let fs = store32 fs table p in
    elim (behind f fs p) [ none ↦ none | some q ↦ put_table f n fs q (table + 4) ]

-- The part of `create_tables` behind the places of the two tables and of the three words of `main`.
unfoldable pub put_frame : ℕ → Bytes → ℕ → ℕ → ℕ → ℕ → ℕ → ℕ → Option (ℕ × Bytes)
unfolding put_table store32
put_frame f fs p argc envc sp argv envp =
    let fs = store32 fs (sp + 8) envp in
    let fs = store32 fs (sp + 4) argv in
    let fs = store32 fs sp argc in
    elim (put_table f argc fs p argv) [
      | none ↦ none
      | some (fs, q) ↦ elim (put_table f envc fs q envp) [
        | none ↦ none
        | some (fs, _) ↦ some (sp, fs)
      ]
    ]

-- The tables lie below the strings, and below them the three words. It gives the new stack pointer
-- and the memory.
unfoldable pub create_tables : ℕ → Bytes → ℕ → ℕ → ℕ → Option (ℕ × Bytes)
unfolding put_frame
create_tables f fs p argc envc =
    let envp = sub32 (p - p % 4) (4 * (envc + 1)) in
    let argv = sub32 envp (4 * (argc + 1)) in put_frame f fs p argc envc (sub32 argv 12) argv envp

-- `page` and `p` of `copy_strings`, the place in the current page, and the pages of the machine.
pub record Args : Type 0 where
  pub p : ℕ
  pub page : ℕ → ℕ
  pub pag : ℕ
  pub offset : ℕ
  pub memory : Memory

-- How a copy ends. Without a free page the call returns 0.
pub data Copied : Type 0 where
  copied no_page no_argument : Args → Copied
  out_of_fuel : Copied

-- The page that `p` lies in, which is taken if there is none yet.
unfoldable pub need_page : Args → Args
unfolding get_free_page
need_page a =
    let i = a.p / page_size in
    if a.page i == 0
    then (let (got, m) = get_free_page a.memory in
        record a { page = update a.page i got; pag = got; offset = a.p % page_size; memory = m })
    else record a { pag = a.page i; offset = a.p % page_size }

-- The inner loop: the `len` bytes before `tmp`, the last one first.
unfoldable pub push_bytes : ℕ → Bytes → ℕ → Args → Copied
unfolding need_page
push_bytes zero source tmp a = copied a
push_bytes (suc len) source tmp a =
    let down = record a { p = sub32 a.p 1 } in
    let at = if a.offset == 0 then need_page down else record down { offset = a.offset - 1 } in
    if at.pag == 0
    then no_page at
    else push_bytes len source (tmp - 1) (record at {
      memory = record at.memory {
        phys = update at.memory.phys (at.pag + at.offset) (source (tmp - 1));
      };
    })

-- The outer loop, with `argc` strings left. `words` is the memory that `argv` lies in and `source`
-- that of the strings, which `from_kmem` chooses. The test `p-len < 0` of the source compares
-- unsigned numbers, and never holds.
unfoldable pub copy_loop : ℕ → ℕ → Bytes → Bytes → ℕ → Args → Copied
unfolding load32 behind push_bytes
copy_loop f zero words source argv a = copied a
copy_loop f (suc argc) words source argv a =
    let tmp = load32 words (argv + 4 * argc) in
    if tmp == 0 then no_argument a else elim (behind f source tmp) [
      | none ↦ out_of_fuel
      | some q ↦ elim (push_bytes (q - tmp) source q a) [
        | copied b ↦ copy_loop f argc words source argv b
        | no_page b ↦ no_page b
        | no_argument b ↦ no_argument b
        | out_of_fuel ↦ out_of_fuel
      ]
    ]

-- `user` and `kernel` are the memories behind the two segments.
unfoldable pub copy_strings : ℕ → ℕ → ℕ → Bytes → Bytes → ℕ → (ℕ → ℕ) → ℕ → Memory → Copied
unfolding copy_loop
copy_strings f from_kmem argc user kernel argv page p memory =
    let a : Args = record { p = p; page = page; pag = 0; offset = 0; memory = memory } in
    if p == 0
    then copied a
    else copy_loop f argc (if from_kmem == 0 then user else kernel)
        (if from_kmem == 2 then kernel else user) argv a
