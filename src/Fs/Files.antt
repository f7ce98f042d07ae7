-- ===== src/Fs/Files.antt =====
-- fs/fcntl.c, and sys_close of fs/open.c: the descriptors of a task. `dupfd` tests `filp[fp]`,
-- where no `fp` is declared: it is read as `filp[fd]`.
pub mod Dup
use neantis.Prelude.{
  ℕ, zero, suc, ◌+◌, ◌-◌, ◌/◌, ◌%◌, ◌^◌, Bool, true, false, not, ◌&&◌, ◌||◌, leb, ◌==◌,
  if◌then◌else◌, update, bit_and, bit_or,
}
use neantis.Prelude.Words.{u16, sub16}
use neantis.Fs.State.{Ptr, null, nr_open, OpenFile, Task, Kernel}
use neantis.Fs.Run.{
  Outcome, ok, panic, out_of_fuel, Cmd, pure, and_then, ◌>>=◌, ◌>>◌, Machine, gets, set_file,
  set_task,
}
use neantis.Fs.Errno.{ℤ, pos, negsuc, error, success, ebadf, einval, emfile}
use neantis.Fs.Inode.{iput}
use neantis.Fs.Namei.Make.{and_not}
use neantis.Fs.Namei.Open.{o_append, o_nonblock}

-- the set of descriptors, of 32 bits, without `fd`
abbrev pub without : ℕ → ℕ → ℕ
without set fd = bit_and set (2 ^ 32 - 1 - 2 ^ fd)

-- `while(arg < NR_OPEN) if(current->filp[arg]) arg++; else break;`, with `n` the rounds left
unfoldable pub next_free : ℕ → (ℕ → Ptr) → ℕ → ℕ
next_free zero filp arg = arg
next_free (suc n) filp arg = if filp arg == null then arg else next_free n filp (arg + 1)

unfoldable pub dupfd : ℕ → ℕ → Cmd ℤ
dupfd fd arg = do
  t ← gets λ k. k.current
  if leb nr_open fd || t.filp fd == null
      then pure (error ebadf)
      else if leb nr_open arg
      then pure (error einval)
      else do
        let new = next_free (nr_open - arg) t.filp arg
        if leb nr_open new then pure (error emfile) else do
          set_task λ t. record t {
            close_on_exec = without t.close_on_exec new;
            filp = update t.filp new (t.filp fd);
          }
          set_file (t.filp fd) λ f. record f { f_count = u16 (f.f_count + 1) }
          pure (pos new)

abbrev pub sys_dup : ℕ → Cmd ℤ
sys_dup fildes = dupfd fildes 0

-- The commands of fcntl.
abbrev pub f_dupfd : ℕ
f_dupfd = 0

abbrev pub f_getfd : ℕ
f_getfd = 1

abbrev pub f_setfd : ℕ
f_setfd = 2

abbrev pub f_getfl : ℕ
f_getfl = 3

abbrev pub f_setfl : ℕ
f_setfl = 4

unfoldable pub sys_fcntl : ℕ → ℕ → ℕ → Cmd ℤ
unfolding dupfd
sys_fcntl fd cmd arg = do
  t ← gets λ k. k.current
  let filp = t.filp fd
  let status = bit_or o_append o_nonblock
  if leb nr_open fd || filp == null
      then pure (error ebadf)
      else if cmd == f_dupfd
      then dupfd fd arg
      else if cmd == f_getfd
      then pure (pos (t.close_on_exec / 2 ^ fd % 2))
      else if cmd == f_setfd
      then (do
        set_task λ t. record t {
          close_on_exec =
              if arg % 2 == 1 then bit_or t.close_on_exec (2 ^ fd) else without t.close_on_exec fd;
        }
        pure success)
      else if cmd == f_getfl
      then (do f ← gets λ k. k.file filp; pure (pos f.f_flags))
      else if cmd == f_setfl
      then (do
        set_file filp
            λ f. record f { f_flags = u16 (bit_or (and_not f.f_flags status) (bit_and arg status)) }
        pure success)
      else pure (negsuc 0)

module _ ⦃m : Machine⦄ where
  unfoldable pub sys_close : ℕ → Cmd ℤ
  unfolding iput
  sys_close fd = if leb nr_open fd then pure (error einval) else do
    set_task λ t. record t { close_on_exec = without t.close_on_exec fd }
    t ← gets λ k. k.current
    let filp = t.filp fd
    if filp == null then pure (error einval) else do
      set_task λ t. record t { filp = update t.filp fd null }
      f ← gets λ k. k.file filp
      if f.f_count == 0 then panic else do
        set_file filp λ f. record f { f_count = sub16 f.f_count 1 }
        if not (sub16 f.f_count 1 == 0) then pure success else do iput f.f_inode; pure success

  unfoldable pub sys_dup2 : ℕ → ℕ → Cmd ℤ
  unfolding sys_close dupfd
  sys_dup2 oldfd newfd = do _ ← sys_close newfd; dupfd oldfd newfd
