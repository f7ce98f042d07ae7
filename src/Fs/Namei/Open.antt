-- ===== src/Fs/Namei/Open.antt =====
-- fs/namei.c: `open_namei`, the part of open and creat that finds or makes the file.
use neantis.Prelude.{
  ℕ, ◌+◌, ◌-◌, Bool, not, ◌&&◌, ◌||◌, ltb, ◌==◌, if◌then◌else◌, bit_and, bit_or, [], ◌∷◌, get_or,
}
use neantis.Prelude.Words.{u16, sub8}
use neantis.Fs.State.{Ptr, null}
use neantis.Fs.Run.{Cmd, pure, ◌>>=◌, ◌>>◌, Machine, gets, set_buffer, set_inode, when}
use neantis.Fs.Errno.{ℤ, error, success, eperm, enoent, eacces, eexist, eisdir, enospc}
use neantis.Fs.Bytes.{load16, store16}
use neantis.Fs.Cache.{brelse}
use neantis.Fs.Truncate.{truncate, s_isdir}
use neantis.Fs.Inode.{iput}
use neantis.Fs.Iget.{iget, new_inode}
use neantis.Fs.Namei.{permission, may_write, find_entry, add_entry}
use neantis.Fs.Namei.Make.{and_not}

abbrev pub o_accmode : ℕ
o_accmode = 0o3

abbrev pub o_wronly : ℕ
o_wronly = 0o1

abbrev pub o_creat : ℕ
o_creat = 0o100

abbrev pub o_excl : ℕ
o_excl = 0o200

abbrev pub o_trunc : ℕ
o_trunc = 0o1000

abbrev pub o_append : ℕ
o_append = 0o2000

abbrev pub o_nonblock : ℕ
o_nonblock = 0o4000

abbrev pub i_regular : ℕ
i_regular = 0o100000

-- `flag & o`, as a condition
abbrev pub has : ℕ → ℕ → Bool
has flag o = not (bit_and flag o == 0)

module _ ⦃m : Machine⦄ where
  -- `ACC_MODE(flag)`: the whole flag is the index, and the mask comes after it. Behind the four
  -- bytes of the literal stands its final 0, and then whatever the linker put there.
  unfoldable pub acc_mode : ℕ → ℕ
  acc_mode flag =
      bit_and
        (if ltb flag 5 then get_or (4 ∷ 2 ∷ 6 ∷ 255 ∷ []) flag 0 else m.after_modes (flag - 5))
        o_accmode

  -- The part of `open_namei` for a name that is not there: the file is made.
  unfoldable pub create_file : Ptr → ℕ → ℕ → ℕ → ℕ → Cmd (ℤ × Ptr)
  unfolding permission iput new_inode add_entry store16 brelse
  create_file dir basename namelen flag mode = do
    k ← gets λ k. k
    if not (has flag o_creat)
        then (do iput dir; pure (error enoent, null))
        else if not (permission k dir may_write)
        then (do iput dir; pure (error eacces, null))
        else do
          i ← new_inode (k.inode dir).i_dev
          if i == null then (do iput dir; pure (error enospc, null)) else do
            task ← gets λ k. k.current
            set_inode i λ r. record r { i_uid = task.euid; i_mode = u16 mode; i_dirt = 1 }
            (b, o) ← add_entry dir basename namelen
            if b == null
                then (do
                  set_inode i λ r. record r { i_nlinks = sub8 r.i_nlinks 1 }
                  iput i
                  iput dir
                  pure (error enospc, null))
                else do
                  num ← gets λ k. (k.inode i).i_num
                  set_buffer b λ h. record h { b_data = store16 h.b_data o num; b_dirt = 1 }
                  brelse b
                  iput dir
                  pure (success, i)

  -- The result and `*res_inode`.
  unfoldable pub open_namei : (ℕ → Cmd (Ptr × ℕ × ℕ)) → ℕ → ℕ → ℕ → Cmd (ℤ × Ptr)
  unfolding acc_mode permission find_entry create_file iput iget brelse load16 truncate
  open_namei dir_namei pathname flag₀ mode₀ = do
    let flag =
        if has flag₀ o_trunc && not (has flag₀ o_accmode) then bit_or flag₀ o_wronly else flag₀
    mask ← gets λ k. k.current.umask
    let mode = bit_or (and_not (bit_and mode₀ 0o777) mask) i_regular
    (dir, basename, namelen) ← dir_namei pathname
    if dir == null
        then pure (error enoent, null)
        else if namelen == 0
        then (if not (has flag (o_accmode + o_creat + o_trunc))
            then pure (success, dir)
            else do iput dir; pure (error eisdir, null))
        else do
          e ← find_entry dir basename namelen
          if e.buf == null then create_file e.dir basename namelen flag mode else do
            nr ← gets λ k. load16 (k.buffer e.buf).b_data e.entry
            dev ← gets λ k. (k.inode e.dir).i_dev
            brelse e.buf
            iput e.dir
            if has flag o_excl then pure (error eexist, null) else do
              i ← iget dev nr
              if i == null then pure (error eacces, null) else do
                k ← gets λ k. k
                if (s_isdir (k.inode i).i_mode && has flag o_accmode)
                      || not (permission k i (acc_mode flag))
                    then (do iput i; pure (error eperm, null))
                    else do
                      now ← gets λ k. k.current_time
                      set_inode i λ r. record r { i_atime = now }
                      when (has flag o_trunc) (truncate i)
                      pure (success, i)
