-- ===== src/Exec/Become.antt =====
-- fs/exec.c: the later half of `do_execve`, the exits of the call, and its calls of the functions
-- above it. `eip` points to the words of the caller's registers on the stack. The loop behind
-- `exec_error1` is read as one over the pages: its test, `i w < MAX_ARG_PAGE`, is no expression.
pub mod Ends
use neantis.Prelude.{
  ℕ, zero, suc, ◌+◌, ◌*◌, ◌/◌, ◌%◌, ◌^◌, Bool, false, not, ◌||◌, ◌==◌, if◌then◌else◌, update, some,
  none,
}
use neantis.Prelude.Words.{u16, u32, sub32}
use neantis.Mm.{page_size}
use neantis.Fs.State.{Ptr, null, nr_open, block_size}
use neantis.Fs.Run.{
  ok, panic, out_of_fuel, Cmd, pure, ◌>>=◌, ◌>>◌, Machine, gets, modify, set_task, when, for_range,
}
use neantis.Fs.Errno.{ℤ, error, success, enoexec, enomem}
use neantis.Fs.Inode.{iput, release_page}
use neantis.Fs.Files.{sys_close}
use neantis.Strings.{Bytes}
use neantis.Segments.{get_base, get_limit}
use neantis.Exec.{
  count, create_tables, copied, no_page, no_argument, out_of_fuel as no_end, copy_strings,
}
use neantis.Exec.Image.{Header, text_offset, is_refused}
use neantis.Exec.Ldt.{Mmu, max_arg_page, change_ldt}

-- The page table and the place `p` of the arguments, as they are copied.
pub record ArgPages : Type 0 where
  pub page : ℕ → ℕ
  pub p : ℕ

-- The registers of the caller, as the words from `eip` on.
abbrev pub Registers : Type 0
Registers = ℕ → ℕ

-- What the call returns, and what it leaves in the registers.
abbrev pub Result : Type 0
Result = ℤ × Registers

-- `while(i&0xfff) put_fs_byte(0, (char*)(i++));`
unfoldable pub clear_tail : ℕ → ℕ → Bytes → Bytes
clear_tail zero i fs = fs
clear_tail (suc n) i fs = if i % 2 ^ 12 == 0 then fs else clear_tail n (i + 1) (update fs i 0)

-- The fields of the task that tell of its program, the registers, and the end of the last page.
unfoldable pub set_program : Registers → Header → ℕ → ℕ → ℕ → Cmd Result
unfolding clear_tail
set_program eip ex e_uid e_gid sp = do
  let end_data = u32 (ex.a_data + ex.a_text)
  set_task λ t. record t {
    brk = u32 (ex.a_bss + end_data);
    end_data = end_data;
    end_code = ex.a_text;
    start_stack = sp / 2 ^ 12 * 2 ^ 12;
    euid = u16 e_uid;
    egid = u16 e_gid;
  }
  modify λ k. record k { fs = clear_tail (2 ^ 12) end_data k.fs }
  pure (success, update (update eip 0 ex.a_entry) 3 sp)

module _ ⦃m : Machine⦄ where
  -- A call of `copy_strings`. `kernel` is the memory of the kernel as far as the call reads it.
  unfoldable pub copies : ℕ → ℕ → Bytes → ℕ → ArgPages → Cmd ArgPages
  unfolding copy_strings
  copies from_kmem argc kernel argv a k =
      elim (copy_strings m.rounds from_kmem argc k.fs kernel argv a.page a.p k.memory) [
        | copied b ↦ ok (record { page = b.page; p = b.p }) (record k { memory = b.memory })
        | no_page b ↦ ok (record { page = b.page; p = 0 }) (record k { memory = b.memory })
        | no_argument b ↦ panic (record k { memory = b.memory })
        | no_end ↦ out_of_fuel
      ]

  -- A copy of the strings in the memory of the user.
  abbrev pub copies_user : ℕ → ℕ → ArgPages → Cmd ArgPages
  copies_user argc argv = copies 0 argc (λ _. 0) argv

  -- `exec_error1` and `exec_error2`
  unfoldable pub exec_error1 : Registers → (ℕ → ℕ) → ℕ → Cmd Result
  unfolding for_range release_page
  exec_error1 eip page retval = do
    for_range max_arg_page 0 λ i. release_page (page i)
    pure (error retval, eip)

  unfoldable pub exec_error2 : Registers → Ptr → (ℕ → ℕ) → ℕ → Cmd Result
  unfolding iput exec_error1
  exec_error2 eip inode page retval = do iput inode; exec_error1 eip page retval

  -- `count`, in the memory of the user
  unfoldable pub count_user : ℕ → Cmd ℕ
  unfolding count
  count_user argv k = elim (count m.rounds k.fs argv) [ none ↦ out_of_fuel | some n ↦ ok n k ]

  unfoldable pub create_tables_user : ℕ → ℕ → ℕ → Cmd ℕ
  unfolding create_tables
  create_tables_user p argc envc k = elim (create_tables m.rounds k.fs p argc envc) [
    | none ↦ out_of_fuel
    | some (sp, fs) ↦ ok sp (record k { fs = fs })
  ]

module _ ⦃m : Machine⦄ ⦃x : Mmu⦄ where
  -- From `current->executable` to the tables of the arguments: it gives their place.
  unfoldable pub change_program : Ptr → Header → ℕ → ℕ → ArgPages → Cmd ℕ
  unfolding iput for_range sys_close get_base get_limit change_ldt create_tables_user
  change_program inode ex argc envc a = do
    t ← gets λ k. k.current
    when (not (t.executable == null)) (iput t.executable)
    set_task λ t. record t { executable = inode }
    for_range 32 0 λ i. set_task λ t. record t { sa_handler = update t.sa_handler i 0 }
    for_range nr_open 0 λ i. do
      t ← gets λ k. k.current
      when (t.close_on_exec / 2 ^ i % 2 == 1) (do _ ← sys_close i; pure tt)
    set_task λ t. record t { close_on_exec = 0 }
    t ← gets λ k. k.current
    x.free_page_tables (get_base (t.ldt 1)) (get_limit (t.ldt 1))
    t ← gets λ k. k.current
    x.free_page_tables (get_base (t.ldt 2)) (get_limit (t.ldt 2))
    modify λ k. record k { math_owner = false }
    set_task λ t. record t { used_math = 0 }
    limit ← change_ldt ex.a_text a.page
    create_tables_user (sub32 (a.p + limit) (max_arg_page * page_size)) argc envc

  unfoldable pub become : Registers → Ptr → Header → ℕ → ℕ → ℕ → ℕ → ArgPages → Cmd Result
  unfolding change_program set_program
  become eip inode ex argc envc e_uid e_gid a = do
    sp ← change_program inode ex argc envc a
    set_program eip ex e_uid e_gid sp

  -- Behind the test for a script: the header is tested, and the arguments are copied unless the
  -- script has copied them.
  unfoldable pub load_image :
      Registers → Ptr → Header → Bool → ℕ → ℕ → ℕ → ℕ → ℕ → ℕ → ArgPages → Cmd Result
  unfolding exec_error2 copies become
  load_image eip inode ex sh_bang argv envp argc envc e_uid e_gid a = do
    r ← gets λ k. k.inode inode
    if is_refused ex r.i_size || not (text_offset ex == block_size)
        then exec_error2 eip inode a.page enoexec
        else if sh_bang
        then become eip inode ex argc envc e_uid e_gid a
        else do
          a ← copies_user envc envp a
          a ← copies_user argc argv a
          if a.p == 0
              then exec_error2 eip inode a.page enomem
              else become eip inode ex argc envc e_uid e_gid a
