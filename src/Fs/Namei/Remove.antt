-- ===== src/Fs/Namei/Remove.antt =====
-- fs/namei.c: the system calls that remove a name: rmdir and unlink.
-- The walk along a path is an argument: `dir_namei` gives the directory (or null), and the address
-- and length of the last name.
use neantis.Prelude.{
  ℕ, zero, suc, ◌+◌, ◌/◌, Bool, true, false, not, ◌&&◌, ◌||◌, ltb, ◌==◌, if◌then◌else◌, bit_and,
}
use neantis.Prelude.Words.{sub8}
use neantis.Fs.State.{suser, Ptr, null, Block, block_size, Kernel}
use neantis.Fs.Run.{
  ok, out_of_fuel, Cmd, pure, and_then, ◌>>=◌, ◌>>◌, Machine, gets, set_buffer, set_inode, when,
}
use neantis.Fs.Errno.{ℤ, error, success, eperm, enoent, enotdir, enotempty}
use neantis.Fs.Bytes.{load16, store16}
use neantis.Fs.Cache.{brelse}
use neantis.Fs.Buffer.{bread}
use neantis.Fs.Truncate.{s_isdir}
use neantis.Fs.Inode.{bmap, iput}
use neantis.Fs.Iget.{iget}
use neantis.Fs.Namei.{permission, may_write, dir_entry_size, dir_entries_per_block, find_entry}

abbrev pub s_isvtx : ℕ
s_isvtx = 0o1000

-- `strcmp(".", de->name)` and `strcmp("..", …)` at offset `o`: are there `n` dots and a final 0?
unfoldable pub is_dots : ℕ → Block → ℕ → Bool
is_dots zero d o = d o == 0
is_dots (suc n) d o = d o == b'.' && is_dots n d (o + 1)

module _ ⦃m : Machine⦄ where
  -- The loop of `empty_dir` from entry `nr` on, at offset `o`. Each round moves `nr` up.
  unfoldable pub empty_loop : ℕ → ℕ → Ptr → Ptr → ℕ → ℕ → Cmd Bool
  unfolding brelse bmap bread load16
  empty_loop zero len i b nr o k = out_of_fuel
  empty_loop (suc n) len i b nr o k =
      let look = λ (b : Ptr) (o : ℕ) (k : Kernel).
        let rest = empty_loop n len i b (nr + 1) (o + dir_entry_size) k in
        if load16 (k.buffer b).b_data o == 0 then rest else (do brelse b; pure false) k in
      elim (ltb nr len) [
        | false ↦ (do brelse b; pure true) k
        | true ↦ elim (ltb o block_size) [
          | true ↦ look b o k
          | false ↦ and_then (brelse b k) λ _ k₁.
              and_then (bmap i (nr / dir_entries_per_block) k₁) λ block k₂. elim (block == 0) [
                | true ↦ empty_loop n len i b (nr + dir_entries_per_block) o k₂
                | false ↦
                    and_then (bread (k₂.inode i).i_dev block k₂)
                      λ b' k₃. elim (b' == null) [ true ↦ ok false k₃ | false ↦ look b' 0 k₃ ]
              ]
        ]
      ]

  -- An inode with no first block, or with other first entries than `.` and `..`, is not empty.
  unfoldable pub empty_dir : Ptr → Cmd Bool
  unfolding bread is_dots load16 empty_loop
  empty_dir i = do
    r ← gets λ k. k.inode i
    let len = r.i_size / dir_entry_size
    if ltb len 2 || r.i_zone 0 == 0 then pure false else do
      b ← bread r.i_dev (r.i_zone 0)
      if b == null then pure false else do
        d ← gets λ k. (k.buffer b).b_data
        num ← gets λ k. (k.inode i).i_num
        if not (load16 d 0 == num)
              || load16 d 16 == 0
              || not (is_dots 1 d 2)
              || not (is_dots 2 d 18)
            then pure false
            else empty_loop (len + 1) len i b 2 32

  -- The end of rmdir and unlink on an error: the directory, the inode and the buffer are let go.
  unfoldable pub give_up : Ptr → Ptr → Ptr → ℕ → Cmd ℤ
  unfolding iput brelse
  give_up first second b e = do iput first; iput second; brelse b; pure (error e)

  module _ (dir_namei : ℕ → Cmd (Ptr × ℕ × ℕ)) where
    unfoldable pub sys_rmdir : ℕ → Cmd ℤ
    unfolding permission find_entry brelse iput iget empty_dir give_up load16 store16
    sys_rmdir name = do
      root ← gets λ k. suser k.current
      if not root then pure (error eperm) else do
        (dir, basename, namelen) ← dir_namei name
        if dir == null
            then pure (error enoent)
            else if namelen == 0
            then (do iput dir; pure (error enoent))
            else do
              may ← gets λ k. permission k dir may_write
              if not may then (do iput dir; pure (error eperm)) else do
                e ← find_entry dir basename namelen
                if e.buf == null then (do iput e.dir; pure (error enoent)) else do
                  dev ← gets λ k. (k.inode e.dir).i_dev
                  nr ← gets λ k. load16 (k.buffer e.buf).b_data e.entry
                  i ← iget dev nr
                  k ← gets λ k. k
                  let r = k.inode i
                  let d = k.inode e.dir
                  let euid = k.current.euid
                  let sticky =
                      not (bit_and d.i_mode s_isvtx == 0)
                      && not (euid == 0)
                      && not (r.i_uid == euid)
                  if i == null
                      then (do iput e.dir; brelse e.buf; pure (error eperm))
                      else if sticky
                      then give_up e.dir i e.buf eperm
                      else if not (r.i_dev == d.i_dev) || ltb 1 r.i_count
                      then give_up e.dir i e.buf eperm
                      else if i == e.dir
                      then give_up i e.dir e.buf eperm
                      else if not (s_isdir r.i_mode)
                      then give_up i e.dir e.buf enotdir
                      else do
                        is_empty ← empty_dir i
                        if not is_empty then give_up i e.dir e.buf enotempty else do
                          set_buffer e.buf
                              λ h. record h { b_data = store16 h.b_data e.entry 0; b_dirt = 1 }
                          brelse e.buf
                          set_inode i λ r. record r { i_nlinks = 0; i_dirt = 1 }
                          now ← gets λ k. k.current_time
                          set_inode e.dir λ r. record r {
                            i_nlinks = sub8 r.i_nlinks 1;
                            i_ctime = now;
                            i_mtime = now;
                            i_dirt = 1;
                          }
                          iput e.dir
                          iput i
                          pure success

    unfoldable pub sys_unlink : ℕ → Cmd ℤ
    unfolding permission find_entry brelse iput iget give_up load16 store16
    sys_unlink name = do
      (dir, basename, namelen) ← dir_namei name
      if dir == null
          then pure (error enoent)
          else if namelen == 0
          then (do iput dir; pure (error enoent))
          else do
            may ← gets λ k. permission k dir may_write
            if not may then (do iput dir; pure (error eperm)) else do
              e ← find_entry dir basename namelen
              if e.buf == null then (do iput e.dir; pure (error enoent)) else do
                dev ← gets λ k. (k.inode e.dir).i_dev
                nr ← gets λ k. load16 (k.buffer e.buf).b_data e.entry
                i ← iget dev nr
                k ← gets λ k. k
                let r = k.inode i
                let d = k.inode e.dir
                let euid = k.current.euid
                let sticky =
                    not (bit_and d.i_mode s_isvtx == 0)
                    && not (suser k.current)
                    && not (euid == r.i_uid)
                    && not (euid == d.i_uid)
                if i == null
                    then (do iput e.dir; brelse e.buf; pure (error enoent))
                    else if sticky
                    then give_up e.dir i e.buf eperm
                    else if s_isdir r.i_mode
                    then give_up i e.dir e.buf eperm
                    else do
                      when (r.i_nlinks == 0) (set_inode i λ r. record r { i_nlinks = 1 })
                      set_buffer e.buf
                          λ h. record h { b_data = store16 h.b_data e.entry 0; b_dirt = 1 }
                      brelse e.buf
                      now ← gets λ k. k.current_time
                      set_inode i
                          λ r. record r { i_nlinks = sub8 r.i_nlinks 1; i_dirt = 1; i_ctime = now }
                      iput i
                      iput e.dir
                      pure success
