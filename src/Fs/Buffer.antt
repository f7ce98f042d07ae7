-- ===== src/Fs/Buffer.antt =====
-- fs/buffer.c: the block cache over the drivers.
pub mod Init
pub mod Page
pub mod Ring
pub mod Read
pub mod Take
pub mod Moves
pub mod Keeps
pub mod Get
pub mod Loose
pub mod Order
pub mod Calls
pub mod Begin
use neantis.Prelude.{
  ℕ, zero, suc, ◌+◌, ◌-◌, ◌*◌, ◌/◌, ◌%◌, ◌^◌, ◌≤◌, Bool, true, false, not, ◌&&◌, ◌||◌, ltb, leb,
  ◌==◌, if◌then◌else◌, update, List, [], ◌∷◌,
}
use neantis.Prelude.Words.{u8, u16, u32, sub8}
use neantis.Fs.State.{Ptr, null, slot, Block, block_size, BufferHead, Kernel}
use neantis.Fs.Run.{
  Outcome, ok, panic, out_of_fuel, Cmd, Proc, pure, and_then, ◌>>=◌, ◌>>◌, Machine, gets, modify,
  set_buffer, when, wait_while, for_range,
}
use neantis.Fs.Cache.{
  wait_on_buffer, find_buffer, get_hash_table, pick_from, remove_from_queues, insert_into_queues,
  brelse,
}
use neantis.Fs.Itable.{sync_inodes}

-- the commands of `ll_rw_block`
abbrev pub read : ℕ
read = 0

abbrev pub write : ℕ
write = 1

abbrev pub reada : ℕ
reada = 2

-- What `getblk` does to the buffer that it takes over: the count, the flags and the identity.
abbrev pub claim : ℕ → ℕ → Ptr → Proc
claim dev block b = do
  set_buffer b λ r. record r { b_count = 1; b_dirt = 0; b_uptodate = 0 }
  remove_from_queues b
  set_buffer b λ r. record r { b_dev = u16 dev; b_blocknr = block }
  insert_into_queues b

module _ ⦃m : Machine⦄ where
  abbrev pub ll_rw_block : ℕ → Ptr → Proc
  ll_rw_block rw b = modify (m.ll_rw_block rw b)

  -- One of the two loops of `sync_dev`.
  unfoldable pub write_buffers : ℕ → Proc
  unfolding for_range wait_on_buffer
  write_buffers dev k =
      for_range k.nr_buffers 1
        (λ b. do
          h ← gets λ k. k.buffer b
          when (h.b_dev == dev) (do
            wait_on_buffer b
            h ← gets λ k. k.buffer b
            when (h.b_dev == dev && not (h.b_dirt == 0)) (ll_rw_block write b)))
        k

  -- `bread` is an argument, since `getblk` calls `sync_dev`.
  unfoldable pub sync_dev_with : (ℕ → ℕ → Cmd Ptr) → ℕ → Proc
  unfolding write_buffers sync_inodes
  sync_dev_with bread dev = do write_buffers dev; sync_inodes bread; write_buffers dev

  unfoldable pub bread_with : (ℕ → ℕ → Cmd Ptr) → ℕ → ℕ → Cmd Ptr
  unfolding wait_on_buffer brelse
  bread_with getblk dev block = do
    b ← getblk dev block
    if b == null then panic else do
      h ← gets λ k. k.buffer b
      if not (h.b_uptodate == 0) then pure b else do
        ll_rw_block read b
        wait_on_buffer b
        h ← gets λ k. k.buffer b
        if not (h.b_uptodate == 0) then pure b else do brelse b; pure null

  -- `while(bh->b_dirt) { sync_dev; wait; if(bh->b_count) goto repeat; }`, true for the jump
  unfoldable pub clean : (ℕ → Proc) → ℕ → Ptr → Cmd Bool
  unfolding wait_on_buffer
  clean sync_dev zero b k = out_of_fuel
  clean sync_dev (suc f) b k = elim ((k.buffer b).b_dirt == 0) [
    | true ↦ ok false k
    | false ↦ and_then ((sync_dev (k.buffer b).b_dev >> wait_on_buffer b) k) λ _ k'.
        elim ((k'.buffer b).b_count == 0) [ true ↦ clean sync_dev f b k' | false ↦ ok true k' ]
  ]

  -- One pass of `getblk` from the label `repeat` on; `again` is the jump back.
  unfoldable pub getblk_pass : Cmd Ptr → (ℕ → Proc) → ℕ → ℕ → Cmd Ptr
  unfolding get_hash_table find_buffer wait_on_buffer clean pick_from remove_from_queues
      insert_into_queues
  getblk_pass again sync_dev dev block = do
    hit ← get_hash_table dev block
    if not (hit == null) then pure hit else do
      first ← gets λ k. k.free_list
      b ← pick_from m.rounds first null
      if b == null then modify m.sleep_on >> again else do
        wait_on_buffer b
        h ← gets λ k. k.buffer b
        if not (h.b_count == 0) then again else do
          taken ← clean sync_dev m.rounds b
          if taken then again else do
            other ← find_buffer dev block
            if not (other == null) then again else do claim dev block b; pure b

  -- Each jump back and each call that comes round through `sync_dev` uses one unit of `f`.
  unfoldable pub getblk_at : ℕ → ℕ → ℕ → Cmd Ptr
  unfolding getblk_pass sync_dev_with bread_with
  getblk_at zero dev block k = out_of_fuel
  getblk_at (suc f) dev block k =
      let inner = getblk_at f in
      getblk_pass (inner dev block) (sync_dev_with (bread_with inner)) dev block k

  unfoldable pub getblk : ℕ → ℕ → Cmd Ptr
  unfolding getblk_at
  getblk = getblk_at m.rounds

  unfoldable pub bread : ℕ → ℕ → Cmd Ptr
  unfolding bread_with getblk
  bread = bread_with getblk

  unfoldable pub sync_dev : ℕ → Proc
  unfolding sync_dev_with bread
  sync_dev = sync_dev_with bread

  unfoldable pub sys_sync : Cmd ℕ
  unfolding sync_inodes for_range wait_on_buffer bread
  sys_sync = do
    sync_inodes bread
    n ← gets λ k. k.nr_buffers
    for_range n 1 λ b. do
      wait_on_buffer b
      h ← gets λ k. k.buffer b
      when (not (h.b_dirt == 0)) (ll_rw_block write b)
    pure 0

  unfoldable pub invalidate_buffers : ℕ → Proc
  unfolding for_range wait_on_buffer
  invalidate_buffers dev k =
      for_range k.nr_buffers 1
        (λ b. do
          h ← gets λ k. k.buffer b
          when (h.b_dev == dev) (do
            wait_on_buffer b
            h ← gets λ k. k.buffer b
            when (h.b_dev == dev) (set_buffer b λ r. record r { b_uptodate = 0; b_dirt = 0 })))
        k

  -- The loop of `breada` over the blocks after the first. What is read ahead is `bh`, the first
  -- block's buffer, as in the source.
  unfoldable pub read_ahead : ℕ → Ptr → List ℕ → Proc
  unfolding getblk
  read_ahead dev b [] = pure tt
  read_ahead dev b (block ∷ blocks) = do
    t ← getblk dev block
    when (not (t == null)) (do
      h ← gets λ k. k.buffer t
      when (h.b_uptodate == 0) (ll_rw_block reada b)
      set_buffer t λ r. record r { b_count = sub8 r.b_count 1 })
    read_ahead dev b blocks

  unfoldable pub breada : ℕ → ℕ → List ℕ → Cmd Ptr
  unfolding getblk read_ahead wait_on_buffer brelse
  breada dev first blocks = do
    b ← getblk dev first
    if b == null then panic else do
      h ← gets λ k. k.buffer b
      when (h.b_uptodate == 0) (ll_rw_block read b)
      read_ahead dev b blocks
      wait_on_buffer b
      h ← gets λ k. k.buffer b
      if not (h.b_uptodate == 0) then pure b else do brelse b; pure null
