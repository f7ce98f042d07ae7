-- ===== src/Fs/Inode.antt =====
-- fs/inode.c: the zones of a file, and the counted references to the entries of the inode table.
pub mod Blocks
pub mod Counts
pub mod Keeps
pub mod Unused
use neantis.Prelude.{
  ℕ, zero, suc, ◌+◌, ◌-◌, ◌*◌, ◌/◌, ◌%◌, ◌^◌, Bool, true, false, not, ◌&&◌, ◌||◌, ltb, leb, ◌==◌,
  if◌then◌else◌, update,
}
use neantis.Prelude.Words.{u16, sub16}
use neantis.Mm.{Memory, Freed, freed, no_such_page, already_free, free_page, get_free_page}
use neantis.Fs.State.{
  Ptr, null, slot, nr_inode, nr_super, root_ino, map_slots, Block, BufferHead, MInode, zero_inode,
  SuperBlock, Kernel,
}
use neantis.Fs.Run.{
  Outcome, ok, panic, out_of_fuel, Cmd, Proc, pure, and_then, ◌>>=◌, ◌>>◌, Machine, gets, modify,
  set_buffer, set_inode, when, for_range,
}
use neantis.Fs.Bytes.{load16, store16}
use neantis.Fs.Super.{get_super}
use neantis.Fs.Cache.{brelse}
use neantis.Fs.Itable.{wait_on_inode, read_inode, write_inode}
use neantis.Fs.Buffer.{bread, sync_dev}
use neantis.Fs.Bitmap.{
  new_block, free_inode, search_maps, start_place, map_bits, set_bit, bit_at, with_bit,
}
use neantis.Fs.Truncate.{truncate, s_isblk}

-- `free_page`, whose panics stop the kernel
unfoldable pub release_page : ℕ → Proc
unfolding free_page
release_page addr k = elim (free_page addr k.memory) [
  | freed mem ↦ ok tt (record k { memory = mem })
  | no_such_page mem ↦ panic (record k { memory = mem })
  | already_free mem ↦ panic (record k { memory = mem })
]

-- The search of `get_empty_inode` round the table, `n` entries before its end, with the last
-- entry that nobody uses.
unfoldable pub empty_scan : ℕ → Ptr → Cmd Ptr
empty_scan zero found k = ok found k
empty_scan (suc n) found k =
    let here = if leb (nr_inode + 1) (k.last_inode + 1) then slot 0 else k.last_inode + 1 in
    let r = k.inode here in
    let k' = record k { last_inode = here } in
    elim (r.i_count == 0) [
      | false ↦ empty_scan n found k'
      | true ↦ elim (r.i_dirt == 0 && r.i_lock == 0) [
        | true ↦ ok here k'
        | false ↦ empty_scan n here k'
      ]
    ]

-- the largest block of a file, and how many zones a block of zone numbers holds
abbrev pub zones : ℕ
zones = 512

abbrev pub max_block : ℕ
max_block = 7 + zones + zones * zones

module _ ⦃m : Machine⦄ where
  -- `if(create && !i_zone[z]) if((i_zone[z] = new_block(i_dev))) { ctime; dirt }`
  unfoldable pub create_zone : Ptr → ℕ → Bool → Proc
  unfolding new_block
  create_zone i z create = do
    r ← gets λ k. k.inode i
    when (create && r.i_zone z == 0) (do
      n ← new_block r.i_dev
      set_inode i λ r. record r { i_zone = update r.i_zone z (u16 n) }
      when (not (u16 n == 0)) (do
        now ← gets λ k. k.current_time
        set_inode i λ r. record r { i_ctime = now; i_dirt = 1 }))

  -- A block number in a block of them. Where the block is reached through zone 8, the number is
  -- read at the address `b_dev`, not in the block, and a new one leaves `b_dirt` as it is.
  unfoldable pub indirect : Ptr → ℕ → ℕ → Bool → Cmd ℕ
  unfolding create_zone bread brelse new_block load16 store16
  indirect i z n create = do
    create_zone i z create
    r ← gets λ k. k.inode i
    if r.i_zone z == 0 then pure 0 else do
      b ← bread r.i_dev (r.i_zone z)
      if b == null then pure 0 else do
        nr ← gets λ k.
            if z == 7
            then load16 (k.buffer b).b_data (2 * n)
            else load16 k.memory.phys ((k.buffer b).b_dev + 2 * n)
        r ← gets λ k. k.inode i
        nr ←
            if create && nr == 0
            then (do
              new ← new_block r.i_dev
              when (not (new == 0)) (
                  set_buffer b λ h. record h {
                    b_data = store16 h.b_data (2 * n) new;
                    b_dirt = if z == 7 then 1 else h.b_dirt;
                  })
              pure new)
            else pure nr
        brelse b
        pure nr

  -- `block` is the bit pattern of an `int`.
  unfoldable pub bmap_create : Ptr → ℕ → Bool → Cmd ℕ
  unfolding create_zone indirect
  bmap_create i block create =
      if leb (2 ^ 31) block
      then panic
      else if leb max_block block
      then panic
      else if ltb block 7
      then (do create_zone i block create; gets λ k. (k.inode i).i_zone block)
      else if ltb (block - 7) zones
      then indirect i 7 (block - 7) create
      else indirect i 8 ((block - 7 - zones) % zones) create

  unfoldable pub bmap : Ptr → ℕ → Cmd ℕ
  unfolding bmap_create
  bmap i block = bmap_create i block false

  unfoldable pub create_block : Ptr → ℕ → Cmd ℕ
  unfolding bmap_create
  create_block i block = bmap_create i block true

  -- `inode->i_count--`
  abbrev pub drop_count : Ptr → Proc
  drop_count i = set_inode i λ r. record r { i_count = sub16 r.i_count 1 }

  -- `iput` from the label `repeat` on.
  unfoldable pub iput_repeat : ℕ → Ptr → Proc
  unfolding truncate free_inode write_inode wait_on_inode bread
  iput_repeat zero i k = out_of_fuel
  iput_repeat (suc f) i k =
      let r = k.inode i in
      elim (ltb 1 r.i_count) [
        | true ↦ drop_count i k
        | false ↦ elim (r.i_nlinks == 0) [
          | true ↦ (truncate i >> free_inode i) k
          | false ↦ elim (r.i_dirt == 0) [
            | true ↦ drop_count i k
            | false ↦ and_then ((write_inode bread i >> wait_on_inode i) k) λ _. iput_repeat f i
          ]
        ]
      ]

  unfoldable pub iput : Ptr → Proc
  unfolding wait_on_inode release_page sync_dev iput_repeat
  iput i = if i == null then pure tt else do
    wait_on_inode i
    r ← gets λ k. k.inode i
    if r.i_count == 0
        then panic
        else if not (r.i_pipe == 0)
        then (do
          drop_count i
          r ← gets λ k. k.inode i
          if not (r.i_count == 0) then pure tt else do
            release_page r.i_size
            set_inode i λ r. record r { i_count = 0; i_dirt = 0; i_pipe = 0 })
        else if r.i_dev == 0
        then drop_count i
        else do
          when (s_isblk r.i_mode) (do sync_dev (r.i_zone 0); wait_on_inode i)
          iput_repeat m.rounds i

  -- `while(inode->i_dirt) { write_inode(inode); wait_on_inode(inode); }`
  unfoldable pub flush_inode : ℕ → Ptr → Proc
  unfolding write_inode wait_on_inode bread
  flush_inode zero i k = out_of_fuel
  flush_inode (suc f) i k = elim ((k.inode i).i_dirt == 0) [
    | true ↦ ok tt k
    | false ↦ and_then ((write_inode bread i >> wait_on_inode i) k) λ _. flush_inode f i
  ]

  -- The entry may have been taken during the waits: then the search starts over.
  unfoldable pub empty_loop : ℕ → Cmd Ptr
  unfolding empty_scan wait_on_inode flush_inode
  empty_loop zero k = out_of_fuel
  empty_loop (suc f) k = and_then (empty_scan nr_inode null k) λ i k₁. elim (i == null) [
    | true ↦ panic k₁
    | false ↦ and_then ((wait_on_inode i >> flush_inode m.rounds i) k₁) λ _ k₂.
        elim ((k₂.inode i).i_count == 0) [
          | true ↦ and_then (set_inode i (λ _. record zero_inode { i_count = 1 }) k₂) λ _. ok i
          | false ↦ empty_loop f k₂
        ]
  ]

  unfoldable pub get_empty_inode : Cmd Ptr
  unfolding empty_loop
  get_empty_inode = empty_loop m.rounds
