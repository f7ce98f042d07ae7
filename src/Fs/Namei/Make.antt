-- ===== src/Fs/Namei/Make.antt =====
-- fs/namei.c: the system calls that make a name: mknod, mkdir and link.
-- The walk along a path is an argument: `dir_namei` gives the directory (or null), and the address
-- and length of the last name, and `namei` the inode.
use neantis.Prelude.{
  ℕ, zero, suc, ◌+◌, ◌-◌, ◌%◌, ◌^◌, not, ◌||◌, ◌==◌, if◌then◌else◌, update, bit_and, bit_or,
}
use neantis.Prelude.Words.{u8, u16, sub8}
use neantis.Fs.State.{suser, Ptr, null, Block}
use neantis.Fs.Run.{Cmd, pure, ◌>>=◌, ◌>>◌, Machine, gets, set_buffer, set_inode, when}
use neantis.Fs.Errno.{ℤ, error, success, eperm, enoent, eacces, eexist, exdev, enospc, unspecified}
use neantis.Fs.Bytes.{store16}
use neantis.Fs.Cache.{brelse}
use neantis.Fs.Buffer.{bread}
use neantis.Fs.Bitmap.{new_block, free_block}
use neantis.Fs.Truncate.{s_isdir, s_ischr, s_isblk}
use neantis.Fs.Inode.{iput}
use neantis.Fs.Iget.{new_inode}
use neantis.Fs.Namei.{permission, may_write, find_entry, add_entry}

abbrev pub i_directory : ℕ
i_directory = 0o040000

-- the bits of `a` without those of `b`, `a & ~b`, for 16 bits
abbrev pub and_not : ℕ → ℕ → ℕ
and_not a b = bit_and a (2 ^ 16 - 1 - b % 2 ^ 16)

-- `strcpy(de->name, ".")` and `".."`: `n` dots and the final 0
unfoldable pub write_dots : ℕ → ℕ → Block → Block
write_dots zero o d = update d o 0
write_dots (suc n) o d = write_dots n (o + 1) (update d o b'.')

-- The two entries of a new directory: itself and the one above it.
unfoldable pub dot_entries : ℕ → ℕ → Block → Block
unfolding write_dots store16
dot_entries self parent d = write_dots 2 18 (store16 (write_dots 1 2 (store16 d 0 self)) 16 parent)

module _ ⦃m : Machine⦄ (dir_namei : ℕ → Cmd (Ptr × ℕ × ℕ)) where
  unfoldable pub sys_mknod : ℕ → ℕ → ℕ → Cmd ℤ
  unfolding permission find_entry brelse iput new_inode add_entry store16
  sys_mknod filename mode dev = do
    root ← gets λ k. suser k.current
    if not root then pure (error eperm) else do
      (dir, basename, namelen) ← dir_namei filename
      if dir == null
          then pure (error enoent)
          else if namelen == 0
          then (do iput dir; pure (error enoent))
          else do
            may ← gets λ k. permission k dir may_write
            if not may then (do iput dir; pure (error eperm)) else do
              e ← find_entry dir basename namelen
              if not (e.buf == null) then (do brelse e.buf; iput e.dir; pure (error eexist)) else do
                dev_of_dir ← gets λ k. (k.inode e.dir).i_dev
                i ← new_inode dev_of_dir
                if i == null then (do iput e.dir; pure (error enospc)) else do
                  set_inode i λ r. record r { i_mode = u16 mode }
                  when (s_isblk mode || s_ischr mode)
                      (set_inode i λ r. record r { i_zone = update r.i_zone 0 (u16 dev) })
                  now ← gets λ k. k.current_time
                  set_inode i λ r. record r { i_mtime = now; i_atime = now; i_dirt = 1 }
                  (b, o) ← add_entry e.dir basename namelen
                  if b == null
                      then (do
                        iput e.dir
                        set_inode i λ r. record r { i_nlinks = 0 }
                        iput i
                        pure (error enospc))
                      else do
                        num ← gets λ k. (k.inode i).i_num
                        set_buffer b λ h. record h { b_data = store16 h.b_data o num; b_dirt = 1 }
                        iput e.dir
                        iput i
                        brelse b
                        pure success

  -- The part of mkdir after the new inode `i` has got its entry in `dir`, or not.
  unfoldable pub enter_directory : Ptr → Ptr → ℕ → ℕ → Cmd ℤ
  unfolding brelse iput add_entry free_block store16
  enter_directory dir i basename namelen = do
    (b, o) ← add_entry dir basename namelen
    r ← gets λ k. k.inode i
    if b == null
        then (do
          iput dir
          free_block r.i_dev (r.i_zone 0)
          set_inode i λ r. record r { i_nlinks = 0 }
          iput i
          pure (error enospc))
        else do
          set_buffer b λ h. record h { b_data = store16 h.b_data o r.i_num; b_dirt = 1 }
          set_inode dir λ r. record r { i_nlinks = u8 (r.i_nlinks + 1); i_dirt = 1 }
          iput dir
          iput i
          brelse b
          pure success

  -- The part of mkdir that makes the block of the new directory `i`.
  unfoldable pub fill_directory : Ptr → Ptr → ℕ → ℕ → ℕ → Cmd ℤ
  unfolding brelse iput new_block bread dot_entries enter_directory
  fill_directory dir i basename namelen mode = do
    now ← gets λ k. k.current_time
    set_inode i λ r. record r { i_size = 32; i_dirt = 1; i_mtime = now; i_atime = now }
    r ← gets λ k. k.inode i
    block ← new_block r.i_dev
    set_inode i λ r. record r { i_zone = update r.i_zone 0 (u16 block) }
    if u16 block == 0
        then (do
          iput dir
          set_inode i λ r. record r { i_nlinks = sub8 r.i_nlinks 1 }
          iput i
          pure (error enospc))
        else do
          set_inode i λ r. record r { i_dirt = 1 }
          r ← gets λ k. k.inode i
          b ← bread r.i_dev (r.i_zone 0)
          if b == null
              then (do
                iput dir
                set_inode i λ r. record r { i_nlinks = sub8 r.i_nlinks 1 }
                iput i
                pure (error unspecified))
              else do
                self ← gets λ k. (k.inode i).i_num
                parent ← gets λ k. (k.inode dir).i_num
                set_buffer b λ h. record h { b_data = dot_entries self parent h.b_data }
                set_inode i λ r. record r { i_nlinks = 2 }
                set_buffer b λ h. record h { b_dirt = 1 }
                brelse b
                mask ← gets λ k. k.current.umask
                set_inode i λ r. record r {
                  i_mode = bit_or i_directory (and_not (bit_and mode 0o777) mask);
                  i_dirt = 1;
                }
                enter_directory dir i basename namelen

  unfoldable pub sys_mkdir : ℕ → ℕ → Cmd ℤ
  unfolding permission find_entry brelse iput new_inode fill_directory
  sys_mkdir pathname mode = do
    root ← gets λ k. suser k.current
    if not root then pure (error eperm) else do
      (dir, basename, namelen) ← dir_namei pathname
      if dir == null
          then pure (error enoent)
          else if namelen == 0
          then (do iput dir; pure (error enoent))
          else do
            may ← gets λ k. permission k dir may_write
            if not may then (do iput dir; pure (error eperm)) else do
              e ← find_entry dir basename namelen
              if not (e.buf == null) then (do brelse e.buf; iput e.dir; pure (error eexist)) else do
                dev_of_dir ← gets λ k. (k.inode e.dir).i_dev
                i ← new_inode dev_of_dir
                if i == null
                    then (do iput e.dir; pure (error enospc))
                    else fill_directory e.dir i basename namelen mode

  unfoldable pub sys_link : (ℕ → Cmd Ptr) → ℕ → ℕ → Cmd ℤ
  unfolding permission find_entry brelse iput add_entry store16
  sys_link namei oldname newname = do
    old ← namei oldname
    if old == null then pure (error enoent) else do
      r ← gets λ k. k.inode old
      if s_isdir r.i_mode then (do iput old; pure (error eacces)) else do
        (dir, basename, namelen) ← dir_namei newname
        k ← gets λ k. k
        if dir == null
            then (do iput old; pure (error eacces))
            else if namelen == 0
            then (do iput old; iput dir; pure (error eperm))
            else if not ((k.inode dir).i_dev == (k.inode old).i_dev)
            then (do iput dir; iput old; pure (error exdev))
            else if not (permission k dir may_write)
            then (do iput dir; iput old; pure (error eacces))
            else do
              e ← find_entry dir basename namelen
              if not (e.buf == null)
                  then (do brelse e.buf; iput e.dir; iput old; pure (error eexist))
                  else do
                    (b, o) ← add_entry e.dir basename namelen
                    if b == null then (do iput e.dir; iput old; pure (error enospc)) else do
                      num ← gets λ k. (k.inode old).i_num
                      set_buffer b λ h. record h { b_data = store16 h.b_data o num; b_dirt = 1 }
                      brelse b
                      iput e.dir
                      now ← gets λ k. k.current_time
                      set_inode old λ r. record r {
                        i_nlinks = u8 (r.i_nlinks + 1);
                        i_ctime = now;
                        i_dirt = 1;
                      }
                      iput old
                      pure success
