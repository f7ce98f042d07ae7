-- ===== src/Fs/Attributes.antt =====
-- fs/open.c: the calls that name a file by its path and change it, or change the task by it. Each
-- is written over the command that looks the path up (`_with`), and is that for `namei`.
pub mod Change
use neantis.Prelude.{
  ℕ, ◌+◌, ◌-◌, ◌/◌, ◌%◌, ◌^◌, Bool, not, ◌&&◌, ◌||◌, ◌==◌, if◌then◌else◌, bit_and, bit_or,
}
use neantis.Prelude.Words.{u8, u16}
use neantis.Fs.State.{suser, Ptr, null, MInode, Task, Kernel}
use neantis.Fs.Run.{Cmd, pure, ◌>>=◌, ◌>>◌, Machine, gets, set_inode, set_task}
use neantis.Fs.Errno.{ℤ, error, success, enoent, eacces, enotdir}
use neantis.Fs.Truncate.{s_isdir}
use neantis.Fs.Inode.{iput}
use neantis.Fs.Namei.Path.{namei}
use neantis.Fs.Namei.Make.{and_not}

-- The test of `access` on the permissions `res` that it has found.
abbrev pub grants : Task → ℕ → ℕ → ℕ → Bool
grants t i_mode res mode =
    bit_and (bit_and res 0o7) mode == mode
    || t.uid == 0 && (bit_and mode 1 == 0 || not (bit_and i_mode 0o111 == 0))

module _ ⦃m : Machine⦄ where
  unfoldable pub sys_utime_with : (ℕ → Cmd Ptr) → ℕ → ℕ → Cmd ℤ
  unfolding iput
  sys_utime_with namei filename times = do
    i ← namei filename
    if i == null then pure (error enoent) else do
      k ← gets λ k. k
      set_inode i λ r. record r {
        i_atime = if times == 0 then k.current_time else k.fs times;
        i_mtime = if times == 0 then k.current_time else k.fs (times + 4);
        i_dirt = 1;
      }
      iput i
      pure success

  -- The inode is let go before its owner is compared.
  unfoldable pub sys_access_with : (ℕ → Cmd Ptr) → ℕ → ℕ → Cmd ℤ
  unfolding iput
  sys_access_with namei filename mode = do
    i ← namei filename
    if i == null then pure (error eacces) else do
      i_mode ← gets λ k. bit_and (k.inode i).i_mode 0o777
      iput i
      r ← gets λ k. k.inode i
      t ← gets λ k. k.current
      let res = if t.uid == r.i_uid || t.gid == r.i_gid then i_mode / 2 ^ 6 else i_mode
      if grants t i_mode res (bit_and mode 0o7) then pure success else pure (error eacces)

  unfoldable pub sys_chdir_with : (ℕ → Cmd Ptr) → ℕ → Cmd ℤ
  unfolding iput
  sys_chdir_with namei filename = do
    i ← namei filename
    if i == null then pure (error enoent) else do
      r ← gets λ k. k.inode i
      if not (s_isdir r.i_mode) then (do iput i; pure (error enotdir)) else do
        t ← gets λ k. k.current
        iput t.pwd
        set_task λ t. record t { pwd = i }
        pure success

  unfoldable pub sys_chroot_with : (ℕ → Cmd Ptr) → ℕ → Cmd ℤ
  unfolding iput
  sys_chroot_with namei filename = do
    i ← namei filename
    if i == null then pure (error enoent) else do
      r ← gets λ k. k.inode i
      if not (s_isdir r.i_mode) then (do iput i; pure (error enotdir)) else do
        t ← gets λ k. k.current
        iput t.root
        set_task λ t. record t { root = i }
        pure success

  unfoldable pub sys_chmod_with : (ℕ → Cmd Ptr) → ℕ → ℕ → Cmd ℤ
  unfolding iput
  sys_chmod_with namei filename mode = do
    i ← namei filename
    if i == null then pure (error enoent) else do
      r ← gets λ k. k.inode i
      t ← gets λ k. k.current
      if not (t.euid == r.i_uid) && not (suser t) then (do iput i; pure (error eacces)) else do
        set_inode i λ r. record r {
          i_mode = bit_or (bit_and mode 0o777) (and_not r.i_mode 0o7777);
          i_dirt = 1;
        }
        iput i
        pure success

  unfoldable pub sys_chown_with : (ℕ → Cmd Ptr) → ℕ → ℕ → ℕ → Cmd ℤ
  unfolding iput
  sys_chown_with namei filename uid gid = do
    i ← namei filename
    if i == null then pure (error enoent) else do
      t ← gets λ k. k.current
      if not (suser t) then (do iput i; pure (error eacces)) else do
        set_inode i λ r. record r { i_uid = u16 uid; i_gid = u8 gid; i_dirt = 1 }
        iput i
        pure success

  unfoldable pub sys_utime : ℕ → ℕ → Cmd ℤ
  unfolding sys_utime_with namei
  sys_utime = sys_utime_with namei

  unfoldable pub sys_access : ℕ → ℕ → Cmd ℤ
  unfolding sys_access_with namei
  sys_access = sys_access_with namei

  unfoldable pub sys_chdir : ℕ → Cmd ℤ
  unfolding sys_chdir_with namei
  sys_chdir = sys_chdir_with namei

  unfoldable pub sys_chroot : ℕ → Cmd ℤ
  unfolding sys_chroot_with namei
  sys_chroot = sys_chroot_with namei

  unfoldable pub sys_chmod : ℕ → ℕ → Cmd ℤ
  unfolding sys_chmod_with namei
  sys_chmod = sys_chmod_with namei

  unfoldable pub sys_chown : ℕ → ℕ → ℕ → Cmd ℤ
  unfolding sys_chown_with namei
  sys_chown = sys_chown_with namei
