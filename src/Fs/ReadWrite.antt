-- ===== src/Fs/ReadWrite.antt =====
-- fs/read_write.c: the calls that read, write and move, by the kind of the file.
pub mod Seek
pub mod Rounds
pub mod Extent
use neantis.Prelude.{
  ℕ, ◌+◌, ◌-◌, ◌/◌, ◌%◌, ◌^◌, Bool, not, ◌&&◌, ◌||◌, ltb, leb, ◌==◌, if◌then◌else◌, bit_and,
}
use neantis.Prelude.Words.{u32, sub32}
use neantis.Fs.State.{Ptr, null, nr_open, MInode, OpenFile, Task, Kernel}
use neantis.Fs.Run.{
  Outcome, ok, panic, out_of_fuel, Cmd, pure, and_then, ◌>>=◌, ◌>>◌, Machine, gets, set_file,
}
use neantis.Fs.Errno.{ℤ, pos, error, success, eio, ebadf, einval, espipe}
use neantis.Fs.Buffer.{read, write}
use neantis.Fs.Truncate.{s_isreg, s_isdir, s_ischr, s_isblk}
use neantis.Fs.Mount.{major}
use neantis.Fs.Pipe.{read_pipe, write_pipe}
use neantis.Fs.Drivers.{Drivers}
use neantis.Fs.CharDev.{rw_char}
use neantis.Fs.BlockDev.{block_read, block_write}
use neantis.Fs.FileDev.{file_read, file_write}

abbrev pub is_seekable : ℕ → Bool
is_seekable x = leb 1 x && leb x 3

-- The place that `sys_lseek` goes to, for a file of `size` bytes at `place`; `origin` is 0 to 2.
abbrev pub seek_to : ℕ → ℕ → ℕ → ℕ → ℕ
seek_to origin size place offset =
    if origin == 0
    then offset
    else if origin == 1
    then u32 (place + offset)
    else u32 (size + offset)

unfoldable pub sys_lseek : ℕ → ℕ → ℕ → Cmd ℤ
sys_lseek fd offset origin = do
  k ← gets λ k. k
  let f = k.current.filp fd
  let file = k.file f
  let i = k.inode file.f_inode
  if leb nr_open fd || f == null || file.f_inode == null || not (is_seekable (major i.i_dev))
      then pure (error ebadf)
      else if not (i.i_pipe == 0)
      then pure (error espipe)
      else if leb 3 origin
      then pure (error einval)
      else do
        let place = seek_to origin i.i_size file.f_pos offset
        if leb (2 ^ 31) place
            then pure (error einval)
            else do set_file f λ r. record r { f_pos = place }; pure (pos place)

-- The bytes that `sys_read` asks a regular file of `size` bytes for; a negative number is none.
abbrev pub clip : ℕ → ℕ → ℕ → ℕ
clip count place size = if ltb size (u32 (count + place)) then sub32 size place else count

module _ ⦃m : Machine⦄ ⦃d : Drivers⦄ where
  unfoldable pub sys_read : ℕ → ℕ → ℕ → Cmd ℤ
  unfolding read_pipe rw_char block_read file_read
  sys_read fd buf count = do
    k ← gets λ k. k
    let f = k.current.filp fd
    if leb nr_open fd || leb (2 ^ 31) count || f == null
        then pure (error einval)
        else if count == 0
        then pure success
        else do
          d.verify_area buf count
          k ← gets λ k. k
          let file = k.file f
          let r = k.inode file.f_inode
          if not (r.i_pipe == 0)
              then (if bit_and file.f_mode 1 == 0
                  then pure (error eio)
                  else read_pipe file.f_inode buf count)
              else if s_ischr r.i_mode
              then rw_char read (r.i_zone 0) buf count f
              else if s_isblk r.i_mode
              then block_read (r.i_zone 0) f buf count
              else if s_isdir r.i_mode || s_isreg r.i_mode
              then (let n = clip count file.f_pos r.i_size in
                  if n == 0 || leb (2 ^ 31) n then pure success else file_read file.f_inode f buf n)
              else pure (error einval)

  unfoldable pub sys_write : ℕ → ℕ → ℕ → Cmd ℤ
  unfolding write_pipe rw_char block_write file_write
  sys_write fd buf count = do
    k ← gets λ k. k
    let f = k.current.filp fd
    let file = k.file f
    let r = k.inode file.f_inode
    if leb nr_open fd || leb (2 ^ 31) count || f == null
        then pure (error einval)
        else if count == 0
        then pure success
        else if not (r.i_pipe == 0)
        then (if bit_and file.f_mode 2 == 0
            then pure (error eio)
            else write_pipe file.f_inode buf count)
        else if s_ischr r.i_mode
        then rw_char write (r.i_zone 0) buf count f
        else if s_isblk r.i_mode
        then block_write (r.i_zone 0) f buf count
        else if s_isreg r.i_mode
        then file_write file.f_inode f buf count
        else pure (error einval)
