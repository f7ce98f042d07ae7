-- ===== src/Fs/Stat.antt =====
-- fs/stat.c: what a file is. In the loop of `cp_stat` one argument is missing; it is read as
-- `put_fs_byte(((char *) &tmp)[i], &((char *) statbuf)[i])`. `_with` as in fs/open.c.
pub mod Fields
use neantis.Prelude.{ℕ, ◌+◌, leb, ◌||◌, ◌==◌, if◌then◌else◌, update}
use neantis.Fs.State.{Ptr, null, nr_open, Block, MInode, OpenFile, Task, Kernel}
use neantis.Fs.Run.{
  Outcome, ok, panic, out_of_fuel, Cmd, Proc, pure, and_then, ◌>>=◌, ◌>>◌, Machine, gets, modify,
}
use neantis.Fs.Errno.{ℤ, error, success, enoent, ebadf}
use neantis.Fs.Bytes.{store16, store32}
use neantis.Fs.Inode.{iput}
use neantis.Fs.Namei.Path.{namei}
use neantis.Fs.Pipe.{copy}
use neantis.Fs.Drivers.{Drivers}

-- `sizeof(struct stat)`
abbrev pub stat_size : ℕ
stat_size = 32

-- The bytes of `tmp` for an inode, over what lay there before: the bytes 7, 11, 14 and 15 are not
-- fields.
unfoldable pub stat_of : MInode → Block → Block
unfolding store16 store32
stat_of r d =
    let d = store16 d 0 r.i_dev in
    let d = store16 d 2 r.i_num in
    let d = store16 d 4 r.i_mode in
    let d = update d 6 r.i_nlinks in
    let d = store16 d 8 r.i_uid in
    let d = update d 10 r.i_gid in
    let d = store16 d 12 (r.i_zone 0) in
    let d = store32 d 16 r.i_size in
    let d = store32 d 20 r.i_atime in let d = store32 d 24 r.i_mtime in store32 d 28 r.i_ctime

module _ ⦃d : Drivers⦄ where
  unfoldable pub cp_stat : Ptr → ℕ → Proc
  unfolding stat_of copy
  cp_stat i statbuf = do
    d.verify_area statbuf stat_size
    modify λ k. record k { fs = copy stat_size (stat_of (k.inode i) d.stack) 0 k.fs statbuf }

  unfoldable pub sys_fstat : ℕ → ℕ → Cmd ℤ
  unfolding cp_stat
  sys_fstat fd statbuf = do
    k ← gets λ k. k
    let f = k.current.filp fd
    let i = (k.file f).f_inode
    if leb nr_open fd || f == null || i == null
        then pure (error ebadf)
        else do cp_stat i statbuf; pure success

module _ ⦃m : Machine⦄ ⦃d : Drivers⦄ where
  unfoldable pub sys_stat_with : (ℕ → Cmd Ptr) → ℕ → ℕ → Cmd ℤ
  unfolding cp_stat iput
  sys_stat_with namei filename statbuf = do
    i ← namei filename
    if i == null then pure (error enoent) else do cp_stat i statbuf; iput i; pure success

  unfoldable pub sys_stat : ℕ → ℕ → Cmd ℤ
  unfolding sys_stat_with namei
  sys_stat = sys_stat_with namei
