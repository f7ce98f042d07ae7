-- ===== src/Fs/Truncate.antt =====
-- fs/truncate.c: the zones of a file go back to the disk.
use neantis.Prelude.{ℕ, ◌*◌, Bool, not, ◌||◌, ◌==◌, if◌then◌else◌, update, bit_and}
use neantis.Fs.State.{Ptr, null}
use neantis.Fs.Run.{Proc, pure, ◌>>=◌, ◌>>◌, Machine, gets, set_inode, when, for_range}
use neantis.Fs.Bytes.{load16}
use neantis.Fs.Cache.{brelse}
use neantis.Fs.Buffer.{bread}
use neantis.Fs.Bitmap.{free_block}

-- the type of a file in its mode, and the tests of include/sys/stat.h
abbrev pub s_ifmt : ℕ
s_ifmt = 0o170000

abbrev pub s_isreg : ℕ → Bool
s_isreg mode = bit_and mode s_ifmt == 0o100000

abbrev pub s_isdir : ℕ → Bool
s_isdir mode = bit_and mode s_ifmt == 0o040000

abbrev pub s_ischr : ℕ → Bool
s_ischr mode = bit_and mode s_ifmt == 0o020000

abbrev pub s_isblk : ℕ → Bool
s_isblk mode = bit_and mode s_ifmt == 0o060000

module _ ⦃m : Machine⦄ where
  -- `free_ind`, and `free_dind` over it: `free_entry` frees what each entry of the block names.
  unfoldable pub free_tree : (ℕ → ℕ → Proc) → ℕ → ℕ → Proc
  unfolding bread load16 for_range brelse free_block
  free_tree free_entry dev block = if block == 0 then pure tt else do
    b ← bread dev block
    when (not (b == null)) (do
      for_range 512 0 λ i. do
        p ← gets λ k. load16 (k.buffer b).b_data (2 * i)
        when (not (p == 0)) (free_entry dev p)
      brelse b)
    free_block dev block

  unfoldable pub free_ind : ℕ → ℕ → Proc
  unfolding free_tree
  free_ind = free_tree free_block

  unfoldable pub free_dind : ℕ → ℕ → Proc
  unfolding free_tree free_ind
  free_dind = free_tree free_ind

  -- A zone of the inode that is in use is freed and forgotten.
  unfoldable pub free_zone : Ptr → ℕ → Proc
  unfolding free_block
  free_zone i z = do
    r ← gets λ k. k.inode i
    when (not (r.i_zone z == 0)) (do
      free_block r.i_dev (r.i_zone z)
      set_inode i λ r. record r { i_zone = update r.i_zone z 0 })

  unfoldable pub truncate : Ptr → Proc
  unfolding for_range free_zone free_ind free_dind
  truncate i = do
    r ← gets λ k. k.inode i
    if not (s_isreg r.i_mode || s_isdir r.i_mode) then pure tt else do
      for_range 7 0 (free_zone i)
      r ← gets λ k. k.inode i
      free_ind r.i_dev (r.i_zone 7)
      r ← gets λ k. k.inode i
      free_dind r.i_dev (r.i_zone 8)
      now ← gets λ k. k.current_time
      set_inode i λ r. record r {
        i_zone = update (update r.i_zone 7 0) 8 0;
        i_size = 0;
        i_dirt = 1;
        i_mtime = now;
        i_ctime = now;
      }
