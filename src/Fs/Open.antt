-- ===== src/Fs/Open.antt =====
-- fs/open.c: sys_open and sys_creat, over the command that finds the directory of a path (`_with`),
-- and for `dir_namei`.
pub mod Fails
use neantis.Prelude.{
  ℕ, zero, suc, ◌+◌, ◌-◌, ◌/◌, ◌%◌, ◌^◌, Bool, true, not, ◌&&◌, ◌||◌, leb, ◌==◌, if◌then◌else◌,
  update, bit_and, bit_or,
}
use neantis.Prelude.Words.{u16}
use neantis.Fs.State.{Ptr, null, slot, nr_open, nr_file, MInode, OpenFile, Task, Kernel}
use neantis.Fs.Run.{
  Outcome, ok, panic, out_of_fuel, Cmd, Proc, pure, and_then, ◌>>=◌, ◌>>◌, Machine, gets, modify,
  set_file, set_task, when,
}
use neantis.Fs.Errno.{ℤ, pos, negsuc, error, eperm, einval}
use neantis.Fs.Truncate.{s_ischr, s_isblk}
use neantis.Fs.Inode.{iput}
use neantis.Fs.Namei.Make.{and_not}
use neantis.Fs.Namei.Path.{dir_namei}
use neantis.Fs.Namei.Open.{open_namei, o_creat, o_trunc}
use neantis.Fs.Files.{without, next_free}
use neantis.Fs.Mount.{major, check_disk_change}
use neantis.Fs.CharDev.{minor}

-- The first entry of the file table from `i` on that is not in use, `nr_file` if there is none.
unfoldable pub free_file : ℕ → Kernel → ℕ → ℕ
free_file zero k i = i
free_file (suc n) k i = if (k.file (slot i)).f_count == 0 then i else free_file n k (i + 1)

-- The terminal of the task when it opens a character device, and whether it may. The source takes
-- `MAJOR` of a comparison, `MAJOR(inode->i_zone[0]==5)`, which is 0.
unfoldable pub claim_terminal : ℕ → Cmd Bool
claim_terminal zone = do
  t ← gets λ k. k.current
  let none_yet = leb (2 ^ 31) t.tty
  if major zone == 4
      then (do
        when (not (t.leader == 0) && none_yet) (do
          set_task λ t. record t { tty = minor zone }
          modify λ k. record k { tty_pgrp = update k.tty_pgrp (minor zone) t.pgrp })
        pure true)
      else pure (not (not (major (if zone == 5 then 1 else 0) == 0) && none_yet))

module _ ⦃m : Machine⦄ where
  unfoldable pub sys_open_with : (ℕ → Cmd (Ptr × ℕ × ℕ)) → ℕ → ℕ → ℕ → Cmd ℤ
  unfolding free_file next_free claim_terminal iput check_disk_change open_namei
  sys_open_with find_dir filename flag mode = do
    t ← gets λ k. k.current
    let mode = and_not (bit_and mode 0o777) t.umask
    let fd = next_free nr_open t.filp 0
    if leb nr_open fd then pure (error einval) else do
      set_task λ t. record t { close_on_exec = without t.close_on_exec fd }
      n ← gets λ k. free_file nr_file k 0
      if leb nr_file n then pure (error einval) else do
        let f = slot n
        let forget = (do
          set_task λ t. record t { filp = update t.filp fd null }
          set_file f λ r. record r { f_count = 0 })
        set_task λ t. record t { filp = update t.filp fd f }
        set_file f λ r. record r { f_count = u16 (r.f_count + 1) }
        (e, i) ← open_namei find_dir filename flag mode
        elim e [
          | negsuc n ↦ (do forget; pure (negsuc n))
          | pos n ↦ do
            r ← gets λ k. k.inode i
            may ← if s_ischr r.i_mode then claim_terminal (r.i_zone 0) else pure true
            if not may then (do iput i; forget; pure (error eperm)) else do
              when (s_isblk r.i_mode) (check_disk_change (r.i_zone 0))
              r ← gets λ k. k.inode i
              set_file f λ o. record o {
                f_mode = r.i_mode;
                f_flags = u16 flag;
                f_count = 1;
                f_inode = i;
                f_pos = 0;
              }
              pure (pos fd)
        ]

  unfoldable pub sys_open : ℕ → ℕ → ℕ → Cmd ℤ
  unfolding sys_open_with dir_namei
  sys_open = sys_open_with dir_namei

  unfoldable pub sys_creat : ℕ → ℕ → Cmd ℤ
  unfolding sys_open
  sys_creat pathname mode = sys_open pathname (bit_or o_creat o_trunc) mode
