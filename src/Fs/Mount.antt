-- ===== src/Fs/Mount.antt =====
-- fs/super.c: superblocks come and go; and `check_disk_change` of fs/buffer.c.
pub mod Calls
use neantis.Prelude.{
  ℕ, zero, suc, ◌+◌, ◌-◌, ◌*◌, ◌/◌, ◌%◌, ◌^◌, Bool, true, false, not, ◌&&◌, ◌||◌, ◌==◌,
  if◌then◌else◌, update, bit_or,
}
use neantis.Prelude.Words.{u16}
use neantis.Fs.State.{
  Ptr, null, slot, root_ino, nr_inode, nr_file, nr_super, map_slots, super_magic, Block, BufferHead,
  MInode, SuperBlock, Task, Kernel,
}
use neantis.Fs.Run.{
  Outcome, ok, panic, out_of_fuel, Cmd, Proc, pure, and_then, ◌>>=◌, ◌>>◌, Machine, gets, modify,
  set_buffer, set_inode, set_file, set_super, set_task, when, for_range,
}
use neantis.Fs.Errno.{ℤ, error, success, eperm, enoent, enotblk, ebusy}
use neantis.Fs.Bytes.{load16, load32}
use neantis.Fs.Super.{get_super, lock_super, free_super}
use neantis.Fs.Cache.{brelse}
use neantis.Fs.Itable.{invalidate_inodes}
use neantis.Fs.Buffer.{bread, invalidate_buffers, sync_dev}
use neantis.Fs.Truncate.{s_isdir, s_isblk}
use neantis.Fs.Inode.{iput}
use neantis.Fs.Iget.{iget}
use neantis.Fs.Namei.Path.{namei}

abbrev pub major : ℕ → ℕ
major dev = dev / 2 ^ 8

-- `*((struct d_super_block *) s) = *((struct d_super_block *) b_data)`
unfoldable pub load_super : Block → SuperBlock → SuperBlock
unfolding load16 load32
load_super d s = record s {
  s_ninodes = load16 d 0;
  s_nzones = load16 d 2;
  s_imap_blocks = load16 d 4;
  s_zmap_blocks = load16 d 6;
  s_firstdatazone = load16 d 8;
  s_log_zone_size = load16 d 10;
  s_max_size = load32 d 12;
  s_magic = load16 d 16;
}

-- The first entry from `s` on that has no device.
unfoldable pub free_entry : ℕ → Kernel → Ptr → Ptr
free_entry zero k s = null
free_entry (suc n) k s = if (k.super_block s).s_dev == 0 then s else free_entry n k (s + 1)

module _ ⦃m : Machine⦄ where
  -- The two loops that let the buffers of the maps go. The entries are not cleared.
  unfoldable pub release_maps : Ptr → Proc
  unfolding for_range brelse
  release_maps s = do
    for_range map_slots 0 λ i. do b ← gets λ k. (k.super_block s).s_imap i; brelse b
    for_range map_slots 0 λ i. do b ← gets λ k. (k.super_block s).s_zmap i; brelse b

  unfoldable pub put_super : ℕ → Proc
  unfolding get_super lock_super release_maps free_super
  put_super dev = do
    root ← gets λ k. k.root_dev
    if dev == root then pure tt else do
      s ← get_super dev
      if s == null then pure tt else do
        sb ← gets λ k. k.super_block s
        if not (sb.s_imount == null) then pure tt else do
          lock_super s
          set_super s λ r. record r { s_dev = 0 }
          release_maps s
          free_super s

  unfoldable pub check_disk_change : ℕ → Proc
  unfolding put_super for_range invalidate_inodes invalidate_buffers
  check_disk_change dev = if not (major dev == 2) then pure tt else do
    changed ← gets λ k. m.floppy_change (dev % 4) k
    when changed (do
      for_range nr_super 1
          λ s. do sb ← gets λ k. k.super_block s; when (sb.s_dev == dev) (put_super sb.s_dev)
      invalidate_inodes dev
      invalidate_buffers dev)

  -- The two loops that read the blocks of a map: the number of the block after the last one read.
  -- `maps` is the assignment to the entry. What the source writes past the eight entries of an
  -- array is an entry of its own here.
  unfoldable pub read_maps : ℕ → (ℕ → Ptr → SuperBlock → SuperBlock) → Ptr → ℕ → ℕ → ℕ → Cmd ℕ
  unfolding bread
  read_maps zero maps s dev i block k = ok block k
  read_maps (suc n) maps s dev i block k = and_then (bread dev block k) λ b k₁.
      and_then (set_super s (maps i b) k₁) λ _ k₂. elim (b == null) [
        | true ↦ ok block k₂
        | false ↦ read_maps n maps s dev (i + 1) (block + 1) k₂
      ]

  -- The superblock is given up: the entry is free again.
  abbrev pub drop_super : Ptr → Cmd Ptr
  drop_super s = do set_super s λ r. record r { s_dev = 0 }; free_super s; pure null

  -- The part of `read_super` for a device that has no entry yet.
  unfoldable pub load_maps : ℕ → Ptr → Cmd Ptr
  unfolding read_maps release_maps free_super
  load_maps dev s = do
    set_super s λ r. record r { s_imap = λ i. null; s_zmap = λ i. null }
    sb ← gets λ k. k.super_block s
    block ←
        read_maps sb.s_imap_blocks (λ i b r. record r { s_imap = update r.s_imap i b }) s dev 0 2
    block ←
        read_maps sb.s_zmap_blocks (λ i b r. record r { s_zmap = update r.s_zmap i b }) s dev 0
          block
    if not (block == 2 + sb.s_imap_blocks + sb.s_zmap_blocks)
        then (do release_maps s; drop_super s)
        else do
          sb ← gets λ k. k.super_block s
          set_buffer (sb.s_imap 0)
              λ r. record r { b_data = update r.b_data 0 (bit_or (r.b_data 0) 1) }
          set_buffer (sb.s_zmap 0)
              λ r. record r { b_data = update r.b_data 0 (bit_or (r.b_data 0) 1) }
          free_super s
          pure s

  unfoldable pub read_super : ℕ → Cmd Ptr
  unfolding check_disk_change get_super free_entry lock_super bread load_super brelse load_maps
      free_super
  read_super dev = if dev == 0 then pure null else do
    check_disk_change dev
    s ← get_super dev
    if not (s == null) then pure s else do
      s ← gets λ k. free_entry nr_super k (slot 0)
      if s == null then pure null else do
        set_super s λ r. record r {
          s_dev = u16 dev;
          s_isup = null;
          s_imount = null;
          s_time = 0;
          s_rd_only = 0;
          s_dirt = 0;
        }
        lock_super s
        b ← bread dev 1
        if b == null then drop_super s else do
          d ← gets λ k. (k.buffer b).b_data
          set_super s (load_super d)
          brelse b
          sb ← gets λ k. k.super_block s
          if not (sb.s_magic == super_magic) then drop_super s else load_maps dev s
