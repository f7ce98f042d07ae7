-- ===== src/Fs/Buffer/Init.antt =====
-- fs/buffer.c: `buffer_init`, which makes the buffers of the free memory. `start` is the address
-- `end`, behind the kernel, where the buffer heads begin; the addresses of the blocks are not kept.
use neantis.Prelude.{
  ℕ, zero, suc, ◌+◌, ◌-◌, ◌*◌, ◌^◌, true, false, leb, ◌==◌, if◌then◌else◌, update,
}
use neantis.Fs.State.{Ptr, null, slot, nr_hash, block_size, BufferHead}
use neantis.Fs.Run.{ok, out_of_fuel, Cmd, Proc, ◌>>=◌, ◌>>◌, Machine, modify, set_buffer}

-- `sizeof(struct buffer_head)`
abbrev pub head_size : ℕ
head_size = 36

-- The assignments to the buffer head of entry `i`.
abbrev pub fresh_head : ℕ → BufferHead → BufferHead
fresh_head i r = record r {
  b_dev = 0;
  b_dirt = 0;
  b_count = 0;
  b_lock = 0;
  b_uptodate = 0;
  b_next = null;
  b_prev = null;
  b_prev_free = slot i - 1;
  b_next_free = slot i + 1;
}

-- The blocks between the video memory and the first megabyte are left out.
abbrev pub skip_hole : ℕ → ℕ
skip_hole b = if b == 0x100000 then 0xA0000 else b

-- The loop, from entry `i` and block address `b` on: the number of buffers in the end.
unfoldable pub init_loop : ℕ → ℕ → ℕ → ℕ → Cmd ℕ
init_loop zero start i b k = out_of_fuel
init_loop (suc f) start i b k = elim (leb (start + head_size * (i + 1)) (b - block_size)) [
  | true ↦ init_loop f start (i + 1) (skip_hole (b - block_size)) (record k {
    buffer = update k.buffer (slot i) (fresh_head i (k.buffer (slot i)));
    nr_buffers = k.nr_buffers + 1;
  })
  | false ↦ ok i k
]

-- `for(i = 0; i < NR_HASH; i++) hash_table[i] = NULL`, with `n` rounds left
unfoldable pub clear_hash : ℕ → ℕ → (ℕ → Ptr) → ℕ → Ptr
clear_hash zero i table = table
clear_hash (suc n) i table = clear_hash n (i + 1) (update table i null)

-- The address where the blocks end.
abbrev pub first_block : ℕ → ℕ
first_block buffer_end = if buffer_end == 2 ^ 20 then 640 * 1024 else buffer_end

unfoldable pub buffer_init : ⦃m : Machine⦄ → ℕ → ℕ → Proc
unfolding init_loop clear_hash
buffer_init ⦃m⦄ start buffer_end = do
  n ← init_loop m.rounds start 0 (first_block buffer_end)
  let first = slot 0
  let h = slot n - 1
  modify λ k. record k { free_list = first }
  set_buffer first λ r. record r { b_prev_free = h }
  set_buffer h λ r. record r { b_next_free = first }
  modify λ k. record k { hash_table = clear_hash nr_hash 0 k.hash_table }
