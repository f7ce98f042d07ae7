-- ===== src/Fs/Pipe.antt =====
-- fs/pipe.c: the data of a pipe lie in one page, whose address is `i_size`; `PIPE_HEAD` is zone 0
-- and `PIPE_TAIL` zone 1.
pub mod Rounds
pub mod Calls
pub mod Turns
pub mod Wakes
use neantis.Prelude.{
  ℕ, zero, suc, ◌+◌, ◌-◌, ◌*◌, ◌%◌, ◌^◌, Bool, true, false, not, ◌&&◌, ◌||◌, ltb, leb, ◌==◌,
  if◌then◌else◌, update, bit_or, min,
}
use neantis.Prelude.Words.{u8, u16, sub32}
use neantis.Mm.{Memory, page_size, get_free_page}
use neantis.Fs.State.{Ptr, null, slot, nr_open, MInode, OpenFile, Task, Kernel}
use neantis.Fs.Run.{
  Outcome, ok, panic, out_of_fuel, Cmd, Proc, pure, and_then, ◌>>=◌, ◌>>◌, Machine, gets, modify,
  set_inode, set_file, set_task, when,
}
use neantis.Fs.Errno.{ℤ, pos, negsuc, success}
use neantis.Fs.Iget.{get_pipe_inode}

abbrev pub pipe_size : MInode → ℕ
pipe_size r = sub32 (r.i_zone 0) (r.i_zone 1) % page_size

-- `SIGPIPE - 1`
abbrev pub sigpipe_bit : ℕ
sigpipe_bit = 2 ^ 12

-- `while(chars-- > 0) *(to++) = *(from++)`
unfoldable pub copy : ℕ → (ℕ → ℕ) → ℕ → (ℕ → ℕ) → ℕ → ℕ → ℕ
copy zero src from dst to = dst
copy (suc chars) src from dst to = copy chars src (from + 1) (update dst to (src from)) (to + 1)

-- `chars`: what a round moves, for a place in the page, the bytes left of the call, and the bytes
-- that the pipe has or has room for.
abbrev pub chars_of : ℕ → ℕ → ℕ → ℕ
chars_of place count size = min (min (page_size - place) count) size

-- What the assignments to `PIPE_HEAD` or `PIPE_TAIL` leave.
abbrev pub move : ℕ → ℕ → ℕ
move place chars = (min place page_size + chars) % page_size

-- The state after one round of `read_pipe`.
unfoldable pub read_round : Ptr → ℕ → ℕ → Kernel → Kernel
unfolding copy
read_round i buf chars k =
    let r = k.inode i in
    let tail = r.i_zone 1 in
    record k {
      inode = update k.inode i (record r { i_zone = update r.i_zone 1 (move tail chars) });
      fs = copy chars k.memory.phys (r.i_size + tail) k.fs buf;
    }

-- The state after one round of `write_pipe`.
unfoldable pub write_round : Ptr → ℕ → ℕ → Kernel → Kernel
unfolding copy
write_round i buf chars k =
    let r = k.inode i in
    let head = r.i_zone 0 in
    record k {
      inode = update k.inode i (record r { i_zone = update r.i_zone 0 (move head chars) });
      memory = record k.memory { phys = copy chars k.fs buf k.memory.phys (r.i_size + head) };
    }

abbrev pub pipe_room : MInode → ℕ
pipe_room r = page_size - 1 - pipe_size r

-- The search for a free entry of the file table, from entry `i` on, and its claim. The condition
-- of the source does not look at `i`: the search goes on behind the table.
unfoldable pub claim_file : ℕ → ℕ → Cmd ℕ
claim_file zero i k = out_of_fuel
claim_file (suc f) i k = elim ((k.file (slot i)).f_count == 0) [
  | true ↦
      and_then (set_file (slot i) (λ r. record r { f_count = u16 (r.f_count + 1) }) k) λ _. ok i
  | false ↦ claim_file f (i + 1) k
]

-- The first free descriptor from `fd` on, `nr_open` if there is none.
unfoldable pub free_fd : ℕ → (ℕ → Ptr) → ℕ → ℕ
free_fd zero filp fd = fd
free_fd (suc n) filp fd = if filp fd == null then fd else free_fd n filp (fd + 1)

module _ ⦃m : Machine⦄ where
  -- The inner loops: the bytes that the pipe has, or has room for, once there are some; 0 when
  -- there are none and the other end is gone.
  unfoldable pub pipe_wait : ℕ → (MInode → ℕ) → Ptr → Cmd ℕ
  pipe_wait zero size i k = out_of_fuel
  pipe_wait (suc f) size i k = elim (size (k.inode i) == 0) [
    | false ↦ ok (size (k.inode i)) k
    | true ↦ elim ((k.inode i).i_count == 2) [
      | false ↦ ok 0 k
      | true ↦ pipe_wait f size i (m.sleep_on k)
    ]
  ]

  -- The loop of `read_pipe`. A tail that does not lie in the page makes `chars` negative.
  unfoldable pub read_loop : ℕ → Ptr → ℕ → ℕ → ℕ → Cmd ℤ
  unfolding pipe_wait
  read_loop zero i buf count read k = out_of_fuel
  read_loop (suc f) i buf count read k = elim (count == 0) [
    | true ↦ ok (pos read) k
    | false ↦ and_then (pipe_wait m.rounds pipe_size i k) λ size k₁. elim (size == 0) [
      | true ↦ ok (pos read) k₁
      | false ↦
          let tail = (k₁.inode i).i_zone 1 in
          let chars = chars_of tail count size in
          let back = tail - page_size in
          read_loop f i (buf + chars) (count + back - chars) (sub32 (read + chars) back)
            (read_round i buf chars k₁)
    ]
  ]

  -- A negative `count` is none.
  unfoldable pub read_pipe : Ptr → ℕ → ℕ → Cmd ℤ
  unfolding read_loop
  read_pipe i buf count =
      if leb (2 ^ 31) count then pure success else read_loop m.rounds i buf count 0

  unfoldable pub write_loop : ℕ → Ptr → ℕ → ℕ → ℕ → Cmd ℤ
  unfolding pipe_wait
  write_loop zero i buf count written k = out_of_fuel
  write_loop (suc f) i buf count written k = elim (count == 0) [
    | true ↦ ok (pos written) k
    | false ↦ and_then (pipe_wait m.rounds pipe_room i k) λ size k₁. elim (size == 0) [
      | true ↦
          and_then (set_task (λ t. record t { signal = bit_or t.signal sigpipe_bit }) k₁)
            λ _. ok (if written == 0 then negsuc 0 else pos written)
      | false ↦
          let head = (k₁.inode i).i_zone 0 in
          let chars = chars_of head count size in
          let back = head - page_size in
          write_loop f i (buf + chars) (count + back - chars) (sub32 (written + chars) back)
            (write_round i buf chars k₁)
    ]
  ]

  unfoldable pub write_pipe : Ptr → ℕ → ℕ → Cmd ℤ
  unfolding write_loop
  write_pipe i buf count =
      if leb (2 ^ 31) count then pure success else write_loop m.rounds i buf count 0

  -- The undeclared `h` of the source is read as `j`. Of each descriptor one byte is written, at
  -- the place of the `unsigned long`.
  unfoldable pub sys_pipe : ℕ → Cmd ℤ
  unfolding claim_file free_fd get_pipe_inode
  sys_pipe fildes = do
    n₀ ← claim_file m.rounds 0
    n₁ ← claim_file m.rounds (n₀ + 1)
    let f₀ = slot n₀
    let f₁ = slot n₁
    let forget = (do
      set_file f₀ λ r. record r { f_count = 0 }
      set_file f₁ λ r. record r { f_count = 0 })
    let assign = λ (fd f : ℕ). set_task λ t. record t { filp = update t.filp fd f }
    t ← gets λ k. k.current
    let fd₀ = free_fd nr_open t.filp 0
    if leb nr_open fd₀ then (do forget; pure (negsuc 0)) else do
      assign fd₀ f₀
      t ← gets λ k. k.current
      let fd₁ = free_fd (nr_open - (fd₀ + 1)) t.filp (fd₀ + 1)
      if leb nr_open fd₁ then (do assign fd₀ null; forget; pure (negsuc 0)) else do
        assign fd₁ f₁
        i ← get_pipe_inode
        if i == null then (do assign fd₀ null; assign fd₁ null; forget; pure (negsuc 0)) else do
          set_file f₀ λ r. record r { f_inode = i; f_pos = 0; f_mode = 1 }
          set_file f₁ λ r. record r { f_inode = i; f_pos = 0; f_mode = 2 }
          modify λ k. record k { fs = update (update k.fs fildes fd₀) (fildes + 4) fd₁ }
          pure success
