-- ===== src/Fs/Itable.antt =====
-- fs/inode.c, the inode table: locks, and the move of an inode to and from its block. `bread` and
-- `brelse` are those of fs/buffer.c.
pub mod Disk
pub mod Waits
pub mod Keeps
use neantis.Prelude.{
  ℕ, zero, suc, ◌+◌, ◌-◌, ◌*◌, ◌/◌, ◌%◌, ◌^◌, ◌≤◌, Bool, true, false, not, ◌&&◌, ◌||◌, ltb, leb,
  ◌==◌, if◌then◌else◌, update,
}
use neantis.Prelude.Words.{u32, sub32}
use neantis.Fs.State.{
  Ptr, null, slot, nr_inode, Block, MInode, zero_inode, SuperBlock, BufferHead, Kernel,
}
use neantis.Fs.Run.{
  Outcome, ok, panic, out_of_fuel, Cmd, Proc, pure, and_then, ◌>>=◌, ◌>>◌, Machine, gets, modify,
  set_inode, set_buffer, when, wait_while, for_range,
}
use neantis.Fs.Bytes.{load16, store16, load32, store32}
use neantis.Fs.Super.{get_super}
use neantis.Fs.Cache.{brelse}

-- `sizeof(struct d_inode)`, which `mount_root` checks
abbrev pub d_inode_size : ℕ
d_inode_size = 32

abbrev pub inodes_per_block : ℕ
inodes_per_block = 32

abbrev is_locked : Ptr → Kernel → Bool
is_locked i k = not ((k.inode i).i_lock == 0)

-- `*(struct d_inode *) inode = ((struct d_inode *) b_data)[n]`, with `o` the offset of entry `n`
unfoldable pub load_inode : Block → ℕ → MInode → MInode
unfolding load16 load32
load_inode d o i = record i {
  i_mode = load16 d o;
  i_uid = load16 d (o + 2);
  i_size = load32 d (o + 4);
  i_mtime = load32 d (o + 8);
  i_gid = d (o + 12);
  i_nlinks = d (o + 13);
  i_zone = λ z. if ltb z 9 then load16 d (o + 14 + 2 * z) else i.i_zone z;
}

-- The nine zones, from zone `z` on.
unfoldable pub store_zones : ℕ → ℕ → (ℕ → ℕ) → ℕ → Block → Block
unfolding store16
store_zones zero z zone o d = d
store_zones (suc n) z zone o d = store_zones n (z + 1) zone o (store16 d (o + 14 + 2 * z) (zone z))

-- `((struct d_inode *) b_data)[n] = *(struct d_inode *) inode`
unfoldable pub store_inode : MInode → ℕ → Block → Block
unfolding store16 store32 store_zones
store_inode i o d =
    let d₁ = store16 d o i.i_mode in
    let d₂ = store16 d₁ (o + 2) i.i_uid in
    let d₃ = store32 d₂ (o + 4) i.i_size in
    let d₄ = store32 d₃ (o + 8) i.i_mtime in
    let d₅ = update d₄ (o + 12) (i.i_gid % 2 ^ 8) in
    let d₆ = update d₅ (o + 13) (i.i_nlinks % 2 ^ 8) in store_zones 9 0 i.i_zone o d₆

-- the block of the disk that holds inode `num`, and its offset there
abbrev pub inode_block : SuperBlock → ℕ → ℕ
inode_block sb num = u32 (2 + sb.s_imap_blocks + sb.s_zmap_blocks + sub32 num 1 / inodes_per_block)

abbrev pub inode_offset : ℕ → ℕ
inode_offset num = sub32 num 1 % inodes_per_block * d_inode_size

module _ ⦃m : Machine⦄ where
  unfoldable pub wait_on_inode : Ptr → Proc
  unfolding wait_while
  wait_on_inode i = wait_while m.rounds (is_locked i)

  unfoldable pub lock_inode : Ptr → Proc
  unfolding wait_while
  lock_inode i = do wait_while m.rounds (is_locked i); set_inode i λ r. record r { i_lock = 1 }

  unfoldable pub unlock_inode : Ptr → Proc
  unlock_inode i = set_inode i λ r. record r { i_lock = 0 }

  unfoldable pub invalidate_inodes : ℕ → Proc
  unfolding for_range wait_on_inode
  invalidate_inodes dev = for_range nr_inode 1 λ i. do
    wait_on_inode i
    r ← gets λ k. k.inode i
    when (r.i_dev == dev) (set_inode i λ r. record r { i_dev = 0; i_dirt = 0 })

  -- `bread` is an argument of what follows.
  module _ (bread : ℕ → ℕ → Cmd Ptr) where
    unfoldable pub read_inode : Ptr → Proc
    unfolding lock_inode unlock_inode get_super load_inode brelse
    read_inode i = do
      lock_inode i
      r ← gets λ k. k.inode i
      s ← get_super r.i_dev
      if s == null then panic else do
        sb ← gets λ k. k.super_block s
        r ← gets λ k. k.inode i
        b ← bread r.i_dev (inode_block sb r.i_num)
        if b == null then panic else do
          d ← gets λ k. (k.buffer b).b_data
          set_inode i λ r. load_inode d (inode_offset r.i_num) r
          brelse b
          unlock_inode i

    unfoldable pub write_inode : Ptr → Proc
    unfolding lock_inode unlock_inode get_super store_inode brelse
    write_inode i = do
      lock_inode i
      r ← gets λ k. k.inode i
      if r.i_dirt == 0 || r.i_dev == 0 then unlock_inode i else do
        s ← get_super r.i_dev
        if s == null then panic else do
          sb ← gets λ k. k.super_block s
          r ← gets λ k. k.inode i
          b ← bread r.i_dev (inode_block sb r.i_num)
          if b == null then panic else do
            r ← gets λ k. k.inode i
            set_buffer b
                λ h. record h { b_data = store_inode r (inode_offset r.i_num) h.b_data; b_dirt = 1 }
            set_inode i λ r. record r { i_dirt = 0 }
            brelse b
            unlock_inode i

    unfoldable pub sync_inodes : Proc
    unfolding for_range wait_on_inode write_inode
    sync_inodes = for_range nr_inode 1 λ i. do
      wait_on_inode i
      r ← gets λ k. k.inode i
      when (not (r.i_dirt == 0) && r.i_pipe == 0) (write_inode i)
