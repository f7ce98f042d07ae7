-- ===== src/Fs/Cache.antt =====
-- fs/buffer.c, the part that calls no driver: the hash queues and the free list of the buffers.
pub mod Hash
pub mod Links
pub mod FreeList
pub mod FreeRing
pub mod Keeps
pub mod Pick
use Prim.Native.Nat.{bit_xor}
use neantis.Prelude.{
  ℕ, zero, suc, ◌+◌, ◌-◌, ◌*◌, ◌%◌, ◌<◌, Bool, true, false, not, ◌&&◌, ◌||◌, ltb, ◌==◌,
  if◌then◌else◌, update,
}
use neantis.Prelude.Words.{u8, sub8}
use neantis.Fs.State.{Ptr, null, nr_hash, BufferHead, Kernel}
use neantis.Fs.Run.{
  Outcome, ok, panic, out_of_fuel, Cmd, Proc, pure, and_then, ◌>>=◌, ◌>>◌, Machine, gets, modify,
  set_buffer, when, wait_while,
}

-- `_hashfn`
abbrev pub hashfn : ℕ → ℕ → ℕ
hashfn dev block = bit_xor dev block % nr_hash

abbrev pub is_locked : Ptr → Kernel → Bool
is_locked b k = not ((k.buffer b).b_lock == 0)

-- `hash(dev,block) = p`
abbrev pub set_hash : ℕ → ℕ → Ptr → Proc
set_hash dev block p =
    modify λ k. record k { hash_table = update k.hash_table (hashfn dev block) p }

-- An assignment to fields of the buffer that `at` gives, with values read from the state
unfoldable pub assign : (Kernel → Ptr) → (Kernel → BufferHead → BufferHead) → Proc
assign at f k = ok tt (record k { buffer = update k.buffer (at k) (f k (k.buffer (at k))) })

-- The buffer leaves its hash queue and the free list. Each assignment of the source is one step,
-- and reads the links as the steps before have left them.
unfoldable pub remove_from_queues : Ptr → Proc
remove_from_queues b = do
  h ← gets λ k. k.buffer b
  when (not (h.b_next == null)) (set_buffer h.b_next λ r. record r { b_prev = h.b_prev })
  h ← gets λ k. k.buffer b
  when (not (h.b_prev == null)) (set_buffer h.b_prev λ r. record r { b_next = h.b_next })
  h ← gets λ k. k.buffer b
  first ← gets λ k. k.hash_table (hashfn h.b_dev h.b_blocknr)
  when (first == b) (set_hash h.b_dev h.b_blocknr h.b_next)
  g ← gets λ k. k.buffer b
  if g.b_prev_free == null || g.b_next_free == null then panic else do
    set_buffer g.b_prev_free λ r. record r { b_next_free = g.b_next_free }
    prev_free ← gets λ k. (k.buffer b).b_prev_free
    next_free ← gets λ k. (k.buffer b).b_next_free
    set_buffer next_free λ r. record r { b_prev_free = prev_free }
    modify λ k. if k.free_list == b then record k { free_list = (k.buffer b).b_next_free } else k

-- The buffer goes to the end of the free list and, if it has a device, to the front of its hash
-- queue. `bh->b_next->b_prev = bh` is done whether or not the queue was empty: a null `b_next`
-- writes to the memory at address 0.
unfoldable pub insert_into_queues : Ptr → Proc
insert_into_queues b = do
  assign (λ k. b) λ k r. record r { b_next_free = k.free_list }
  assign (λ k. b) λ k r. record r { b_prev_free = (k.buffer k.free_list).b_prev_free }
  assign (λ k. (k.buffer k.free_list).b_prev_free) λ k r. record r { b_next_free = b }
  assign (λ k. k.free_list) λ k r. record r { b_prev_free = b }
  assign (λ k. b) λ k r. record r { b_prev = null }
  assign (λ k. b) λ k r. record r { b_next = null }
  h ← gets λ k. k.buffer b
  if h.b_dev == 0 then pure tt else do
    assign (λ k. b) λ k r. record r { b_next = k.hash_table (hashfn r.b_dev r.b_blocknr) }
    set_hash h.b_dev h.b_blocknr b
    assign (λ k. (k.buffer b).b_next) λ k r. record r { b_prev = b }

-- The walk of `find_buffer` along a hash queue from `b` on.
unfoldable pub find_from : ℕ → ℕ → ℕ → Ptr → Cmd Ptr
find_from zero dev block b k = out_of_fuel
find_from (suc f) dev block b k =
    let h = k.buffer b in
    elim (b == null) [
      | true ↦ ok null k
      | false ↦ elim (h.b_dev == dev && h.b_blocknr == block) [
        | true ↦ ok b k
        | false ↦ find_from f dev block h.b_next k
      ]
    ]

abbrev pub badness : BufferHead → ℕ
badness h = h.b_dirt * 2 + h.b_lock

-- The test of the loop body of `getblk`: is the buffer `t` better than the best so far?
abbrev pub is_better : Kernel → Ptr → Ptr → Bool
is_better k t best =
    (k.buffer t).b_count == 0
    && (best == null || ltb (badness (k.buffer t)) (badness (k.buffer best)))

-- The walk of `getblk` along the free list from `t` on: the first clean and unlocked buffer that
-- nobody uses, or else the least bad. It ends after the last entry of the list.
unfoldable pub pick_from : ℕ → Ptr → Ptr → Cmd Ptr
pick_from zero t best k = out_of_fuel
pick_from (suc f) t best k =
    let best' = if is_better k t best then t else best in
    let next = (k.buffer t).b_next_free in
    elim (is_better k t best && badness (k.buffer t) == 0) [
      | true ↦ ok t k
      | false ↦ elim (next == k.free_list) [ true ↦ ok best' k | false ↦ pick_from f next best' k ]
    ]

module _ ⦃m : Machine⦄ where
  unfoldable pub wait_on_buffer : Ptr → Proc
  unfolding wait_while
  wait_on_buffer b = wait_while m.rounds (is_locked b)

  unfoldable pub find_buffer : ℕ → ℕ → Cmd Ptr
  unfolding find_from
  find_buffer dev block k = find_from m.rounds dev block (k.hash_table (hashfn dev block)) k

  -- A buffer that is found is counted before the wait, and looked at again after it.
  unfoldable pub get_hash_at : ℕ → ℕ → ℕ → Cmd Ptr
  unfolding find_buffer wait_on_buffer
  get_hash_at zero dev block k = out_of_fuel
  get_hash_at (suc f) dev block k = and_then (find_buffer dev block k) λ b k₁. elim (b == null) [
    | true ↦ ok null k₁
    | false ↦
        and_then
          ((set_buffer b (λ r. record r { b_count = u8 (r.b_count + 1) }) >> wait_on_buffer b) k₁)
          λ _ k₂. elim ((k₂.buffer b).b_dev == dev && (k₂.buffer b).b_blocknr == block) [
            | true ↦ ok b k₂
            | false ↦
                and_then (set_buffer b (λ r. record r { b_count = sub8 r.b_count 1 }) k₂)
                  λ _ k₃. get_hash_at f dev block k₃
          ]
  ]

  unfoldable pub get_hash_table : ℕ → ℕ → Cmd Ptr
  unfolding get_hash_at
  get_hash_table dev block = get_hash_at m.rounds dev block

  -- The count is taken down, and wraps, before the panic.
  unfoldable pub brelse : Ptr → Proc
  unfolding wait_on_buffer
  brelse b = if b == null then pure tt else do
    wait_on_buffer b
    count ← gets λ k. (k.buffer b).b_count
    set_buffer b λ r. record r { b_count = sub8 r.b_count 1 }
    if count == 0 then panic else pure tt
