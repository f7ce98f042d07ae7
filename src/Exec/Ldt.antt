-- ===== src/Exec/Ldt.antt =====
-- fs/exec.c: the segments and the pages that a new program gets.
use neantis.Prelude.{ℕ, zero, suc, ◌+◌, not, ◌==◌, update, Option}
use neantis.Prelude.Words.{u32, sub32}
use neantis.Mm.{page_size}
use neantis.Fs.State.{Task}
use neantis.Fs.Run.{ok, Cmd, Proc, pure, and_then, ◌>>=◌, ◌>>◌, gets, set_task, when}
use neantis.Strings.{Bytes}
use neantis.Segments.{page_align, set_base, get_base, set_limit}

-- What fs/exec.c calls and this repository does not have: `put_page` and `free_page_tables`, which
-- mm/memory.c holds in a comment, and `strchr`, the place of a character in the string at an address.
-- `buf_at` and `local_at` are where the compiler puts `buf` and the variable whose address is passed
-- to `copy_strings`.
pub record Mmu : Type 0 where
  pub put_page : ℕ → ℕ → Proc
  pub free_page_tables : ℕ → ℕ → Proc
  pub strchr : Bytes → ℕ → ℕ → Option ℕ
  pub buf_at : ℕ
  pub local_at : ℕ

abbrev pub max_arg_page : ℕ
max_arg_page = 32

abbrev pub data_limit : ℕ
data_limit = 0x4000000

abbrev pub set_ldt : ℕ → (Bytes → Bytes) → Task → Task
set_ldt i f t = record t { ldt = update t.ldt i (f (t.ldt i)) }

module _ ⦃x : Mmu⦄ where
  -- The loop of `change_ldt`, with `i` pages left.
  unfoldable pub put_pages : ℕ → (ℕ → ℕ) → ℕ → Proc
  put_pages zero page data_base k = ok tt k
  put_pages (suc i) page data_base k =
      let data_base = sub32 data_base page_size in
      and_then (when (not (page i == 0)) (x.put_page (page i) data_base) k)
        λ _. put_pages i page data_base

  unfoldable pub change_ldt : ℕ → (ℕ → ℕ) → Cmd ℕ
  unfolding put_pages
  change_ldt text_size page = do
    t ← gets λ k. k.current
    let code_limit = page_align text_size
    let code_base = get_base (t.ldt 1)
    set_task (set_ldt 1 λ d. set_limit (set_base d code_base) code_limit)
    set_task (set_ldt 2 λ d. set_limit (set_base d code_base) data_limit)
    put_pages max_arg_page page (u32 (code_base + data_limit))
    pure data_limit
