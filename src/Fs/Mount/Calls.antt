-- ===== src/Fs/Mount/Calls.antt =====
-- fs/super.c: the calls that mount file systems. Those that name a file are written over the command
-- that looks a path up (`_with`), and are that for `namei`.
use neantis.Prelude.{ℕ, zero, suc, ◌+◌, Bool, false, not, ◌&&◌, ◌||◌, ◌==◌, if◌then◌else◌}
use neantis.Prelude.Words.{u16}
use neantis.Fs.State.{Ptr, null, slot, root_ino, nr_inode, nr_file, nr_super, Kernel}
use neantis.Fs.Run.{
  panic, Cmd, Proc, pure, ◌>>=◌, ◌>>◌, Machine, gets, set_inode, set_file, set_super, set_task,
  for_range,
}
use neantis.Fs.Errno.{ℤ, error, success, eperm, enoent, enotblk, ebusy}
use neantis.Fs.Super.{get_super}
use neantis.Fs.Buffer.{sync_dev}
use neantis.Fs.Truncate.{s_isdir, s_isblk}
use neantis.Fs.Inode.{iput}
use neantis.Fs.Iget.{iget}
use neantis.Fs.Namei.Path.{namei}
use neantis.Fs.Mount.{put_super, read_super}

-- Does device `dev` have an inode in use, from entry `i` on?
unfoldable pub in_use : ℕ → Kernel → ℕ → Ptr → Bool
in_use zero k dev i = false
in_use (suc n) k dev i =
    (k.inode i).i_dev == dev && not ((k.inode i).i_count == 0) || in_use n k dev (i + 1)

module _ ⦃m : Machine⦄ where
  -- The undeclared `s->isup` of the source is read as `sb->s_isup`.
  unfoldable pub sys_umount_with : (ℕ → Cmd Ptr) → ℕ → Cmd ℤ
  unfolding iput get_super in_use put_super sync_dev
  sys_umount_with namei dev_name = do
    i ← namei dev_name
    if i == null then pure (error enoent) else do
      r ← gets λ k. k.inode i
      let dev = r.i_zone 0
      iput i
      root ← gets λ k. k.root_dev
      if not (s_isblk r.i_mode)
          then pure (error enotblk)
          else if dev == root
          then pure (error ebusy)
          else do
            s ← get_super dev
            sb ← gets λ k. k.super_block s
            if s == null || sb.s_imount == null then pure (error enoent) else do
              busy ← gets λ k. in_use nr_inode k dev (slot 0)
              if busy then pure (error ebusy) else do
                set_inode sb.s_imount λ r. record r { i_mount = 0 }
                iput sb.s_imount
                set_super s λ r. record r { s_imount = null }
                sb ← gets λ k. k.super_block s
                iput sb.s_isup
                put_super dev
                sync_dev dev
                pure success

  unfoldable pub sys_umount : ℕ → Cmd ℤ
  unfolding sys_umount_with namei
  sys_umount = sys_umount_with namei

  unfoldable pub sys_mount_with : (ℕ → Cmd Ptr) → ℕ → ℕ → Cmd ℤ
  unfolding iput read_super
  sys_mount_with namei dev_name dir_name = do
    dev_i ← namei dev_name
    if dev_i == null then pure (error enoent) else do
      r ← gets λ k. k.inode dev_i
      let dev = r.i_zone 0
      iput dev_i
      if not (s_isblk r.i_mode) then pure (error eperm) else do
        dir_i ← namei dir_name
        if dir_i == null then pure (error enoent) else do
          r ← gets λ k. k.inode dir_i
          if not (r.i_count == 1) || r.i_num == root_ino
              then (do iput dir_i; pure (error ebusy))
              else if not (s_isdir r.i_mode)
              then (do iput dir_i; pure (error eperm))
              else do
                s ← read_super dev
                sb ← gets λ k. k.super_block s
                r ← gets λ k. k.inode dir_i
                if s == null || not (sb.s_imount == null)
                    then (do iput dir_i; pure (error ebusy))
                    else if not (r.i_mount == 0)
                    then (do iput dir_i; pure (error eperm))
                    else do
                      set_super s λ r. record r { s_imount = dir_i }
                      set_inode dir_i λ r. record r { i_mount = 1; i_dirt = 1 }
                      pure success

  unfoldable pub sys_mount : ℕ → ℕ → Cmd ℤ
  unfolding sys_mount_with namei
  sys_mount = sys_mount_with namei

  -- The key that it waits for and the counts that it prints in the end change nothing: `set_bit` of
  -- this file only tests.
  unfoldable pub mount_root : Proc
  unfolding for_range read_super iget
  mount_root = do
    for_range nr_file 1 λ f. set_file f λ r. record r { f_count = 0 }
    for_range nr_super 1 λ s. set_super s λ r. record r { s_dev = 0; s_lock = 0 }
    dev ← gets λ k. k.root_dev
    s ← read_super dev
    if s == null then panic else do
      i ← iget dev root_ino
      if i == null then panic else do
        set_inode i λ r. record r { i_count = u16 (r.i_count + 3) }
        set_super s λ r. record r { s_isup = i; s_imount = i }
        set_task λ t. record t { pwd = i; root = i }
