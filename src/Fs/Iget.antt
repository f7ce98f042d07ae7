-- ===== src/Fs/Iget.antt =====
-- fs/inode.c: `iget` and the inode of a pipe; and `new_inode` of fs/bitmap.c.
use neantis.Prelude.{
  ℕ, zero, suc, ◌+◌, ◌*◌, ◌%◌, ◌^◌, true, false, not, ◌&&◌, ◌||◌, ltb, leb, ◌==◌, if◌then◌else◌,
  update,
}
use neantis.Prelude.Words.{u16}
use neantis.Mm.{get_free_page}
use neantis.Fs.State.{Ptr, null, slot, nr_inode, nr_super, root_ino, map_slots, Kernel}
use neantis.Fs.Run.{
  ok, panic, out_of_fuel, Cmd, pure, and_then, ◌>>=◌, ◌>>◌, Machine, gets, modify, set_buffer,
  set_inode,
}
use neantis.Fs.Super.{get_super}
use neantis.Fs.Itable.{wait_on_inode, read_inode}
use neantis.Fs.Buffer.{bread}
use neantis.Fs.Bitmap.{search_maps, start_place, map_bits, set_bit, bit_at, with_bit}
use neantis.Fs.Inode.{iput, get_empty_inode}

-- The entry of the table of mounted systems that is mounted on inode `i`, from entry `s` on.
unfoldable pub mount_scan : Kernel → ℕ → Ptr → Ptr → Ptr
mount_scan k zero s i = null
mount_scan k (suc n) s i = if (k.super_block s).s_imount == i then s else mount_scan k n (s + 1) i

module _ ⦃m : Machine⦄ where
  -- `PIPE_HEAD` is zone 0 and `PIPE_TAIL` zone 1.
  unfoldable pub get_pipe_inode : Cmd Ptr
  unfolding get_empty_inode get_free_page
  get_pipe_inode = do
    i ← get_empty_inode
    if i == null then pure null else do
      (page, mem) ← gets λ k. get_free_page k.memory
      modify λ k. record k { memory = mem }
      set_inode i λ r. record r { i_size = page }
      if page == 0 then (do set_inode i λ r. record r { i_count = 0 }; pure null) else do
        set_inode i
            λ r. record r { i_count = 2; i_zone = update (update r.i_zone 0 0) 1 0; i_pipe = 1 }
        pure i

  -- The walk of `iget` through the table from entry `i` on, `n` entries before its end. A mounted
  -- inode sends it on with the mounted device and the number of its root, and from the same entry:
  -- the source assigns `inode_table` to itself there. `f` bounds the jumps.
  unfoldable pub iget_walk : ℕ → ℕ → Ptr → ℕ → ℕ → Ptr → Cmd Ptr
  unfolding wait_on_inode iput mount_scan
  iget_walk f zero i dev nr empty k = ok null k
  iget_walk zero (suc n) i dev nr empty k = out_of_fuel
  iget_walk (suc f) (suc n) i dev nr empty k =
      elim ((k.inode i).i_dev == dev && (k.inode i).i_num == nr) [
        | false ↦ iget_walk (suc f) n (i + 1) dev nr empty k
        | true ↦ and_then (wait_on_inode i k) λ _ k₁.
            elim ((k₁.inode i).i_dev == dev && (k₁.inode i).i_num == nr) [
              | false ↦ iget_walk f nr_inode (slot 0) dev nr empty k₁
              | true ↦
                  and_then (set_inode i (λ r. record r { i_count = u16 (r.i_count + 1) }) k₁)
                    λ _ k₂. elim ((k₂.inode i).i_mount == 0) [
                      | true ↦ and_then (iput empty k₂) λ _. ok i
                      | false ↦
                          let s = mount_scan k₂ nr_super (slot 0) i in
                          elim (s == null) [
                            | true ↦ and_then (iput empty k₂) λ _. ok i
                            | false ↦ and_then (iput i k₂) λ _ k₃.
                                iget_walk f (suc n) i (k₃.super_block s).s_dev root_ino empty k₃
                          ]
                    ]
            ]
      ]

  unfoldable pub iget : ℕ → ℕ → Cmd Ptr
  unfolding get_empty_inode iget_walk read_inode bread
  iget dev nr = if dev == 0 then panic else do
    empty ← get_empty_inode
    i ← iget_walk m.rounds nr_inode (slot 0) dev nr empty
    if not (i == null) then pure i else if empty == null then pure null else do
      set_inode empty λ r. record r { i_dev = u16 dev; i_num = u16 nr }
      read_inode bread empty
      pure empty

  unfoldable pub new_inode : ℕ → Cmd Ptr
  unfolding get_empty_inode get_super search_maps iput with_bit bit_at
  new_inode dev = do
    i ← get_empty_inode
    if i == null then pure null else do
      s ← get_super dev
      if s == null then panic else do
        sb ← gets λ k. k.super_block s
        p ← gets λ k. search_maps sb.s_imap k map_slots start_place
        let full = ltb sb.s_ninodes (p.bit + p.index * map_bits)
        if p.map_block == null || leb map_bits p.bit || full then (do iput i; pure null) else do
          d ← gets λ k. (k.buffer p.map_block).b_data
          let (was_set, d') = set_bit p.bit d
          set_buffer p.map_block λ h. record h { b_data = d' }
          if was_set then panic else do
            set_buffer p.map_block λ h. record h { b_dirt = 1 }
            task ← gets λ k. k.current
            now ← gets λ k. k.current_time
            set_inode i λ r. record r {
              i_count = 1;
              i_nlinks = 1;
              i_dev = u16 dev;
              i_uid = task.euid;
              i_gid = task.egid % 2 ^ 8;
              i_dirt = 1;
              i_num = u16 (p.bit + p.index * map_bits);
              i_ctime = now;
              i_atime = now;
              i_mtime = now;
            }
            pure i
