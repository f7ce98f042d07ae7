-- ===== src/Fs/FileDev.antt =====
-- fs/file_dev.c: regular files, block by block. `flip` in the source is read as `filp`, and the
-- position of the open file is not negative, which `sys_lseek` sees to.
use neantis.Prelude.{
  ℕ, zero, suc, ◌+◌, ◌-◌, ◌/◌, ◌%◌, ◌^◌, Bool, true, false, not, ◌||◌, ltb, leb, ◌==◌,
  if◌then◌else◌, min,
}
use neantis.Prelude.Words.{u32}
use neantis.Fs.State.{Ptr, null, block_size, Block, Kernel}
use neantis.Fs.Run.{
  ok, out_of_fuel, Cmd, Proc, pure, and_then, ◌>>=◌, ◌>>◌, Machine, gets, modify, set_buffer,
  set_inode, set_file, when,
}
use neantis.Fs.Errno.{ℤ, pos, negsuc, error, success, unspecified}
use neantis.Fs.Cache.{brelse}
use neantis.Fs.Buffer.{bread}
use neantis.Fs.Inode.{bmap, create_block}
use neantis.Fs.Namei.Open.{has, o_append}
use neantis.Fs.Pipe.{copy}
use neantis.Fs.CharDev.{advance, signed}

-- The bytes of buffer `b` go to the user; where a file has no block it reads as zeros.
unfoldable pub give_bytes : Ptr → ℕ → ℕ → ℕ → Kernel → Kernel
unfolding copy
give_bytes b nr buf chars k =
    let d : Block = if b == null then (λ p. 0) else (k.buffer b).b_data in
    record k { fs = copy chars d nr k.fs buf }

-- The bytes of the user go to buffer `b`.
unfoldable pub take_bytes : Ptr → ℕ → ℕ → ℕ → Proc
unfolding copy
take_bytes b place buf chars k =
    set_buffer b (λ r. record r { b_data = copy chars k.fs buf r.b_data place }) k

module _ ⦃m : Machine⦄ where
  -- The buffer of the file's block `block`, and whether the read has failed.
  unfoldable pub block_of : Ptr → ℕ → Cmd (Ptr × Bool)
  unfolding bmap bread
  block_of i block = do
    nr ← bmap i block
    if nr == 0
        then pure (null, false)
        else do dev ← gets λ k. (k.inode i).i_dev; b ← bread dev nr; pure (b, b == null)

  -- The loop of `file_read`: what is left in the end.
  unfoldable pub file_read_loop : ℕ → Ptr → Ptr → ℕ → ℕ → Cmd ℕ
  file_read_loop zero i f buf left k = out_of_fuel
  file_read_loop (suc n) i f buf left k = elim (left == 0) [
    | true ↦ ok left k
    | false ↦ and_then (block_of i ((k.file f).f_pos / block_size) k) λ b k₁. elim b.1 [
      | true ↦ ok left k₁
      | false ↦
          let nr = (k₁.file f).f_pos % block_size in
          let chars = min (block_size - nr) left in
          and_then
            ((do
              advance f chars
              modify (give_bytes b.0 nr buf chars)
              when (not (b.0 == null)) (brelse b.0))
              k₁)
            λ _ k₂. file_read_loop n i f (buf + chars) (left - chars) k₂
    ]
  ]

  unfoldable pub file_read : Ptr → Ptr → ℕ → ℕ → Cmd ℤ
  unfolding file_read_loop block_of give_bytes
  file_read i f buf count = if count == 0 || leb (2 ^ 31) count then pure success else do
    left ← file_read_loop m.rounds i f buf count
    now ← gets λ k. k.current_time
    set_inode i λ r. record r { i_atime = now }
    pure (if count == left then error unspecified else pos (count - left))

  -- What a round of `file_write` takes from the user, when `written` of `count` bytes are done.
  -- The source compares the room in the block with `count-1`, not with what is left.
  abbrev pub write_chars : ℕ → ℕ → ℕ → ℕ
  write_chars place count written =
      let room = block_size - place in if ltb (count - 1) room then count - written else room

  -- The loop of `file_write`, at the position `place` of the file: the position and the bytes
  -- written in the end.
  unfoldable pub file_write_loop : ℕ → Ptr → ℕ → ℕ → ℕ → ℕ → Cmd (ℕ × ℕ)
  file_write_loop zero i buf count place written k = out_of_fuel
  file_write_loop (suc n) i buf count place written k = elim (ltb written count) [
    | false ↦ ok (place, written) k
    | true ↦ and_then (create_block i (place / block_size) k) λ block k₁. elim (block == 0) [
      | true ↦ ok (place, written) k₁
      | false ↦ and_then (bread (k₁.inode i).i_dev block k₁) λ b k₂. elim (b == null) [
        | true ↦ ok (place, written) k₂
        | false ↦
            let c = write_chars (place % block_size) count written in
            let next = u32 (place + c) in
            and_then
              ((do
                set_buffer b λ r. record r { b_dirt = 1 }
                size ← gets λ k. (k.inode i).i_size
                when (ltb size next) (set_inode i λ r. record r { i_size = next; i_dirt = 1 })
                take_bytes b (place % block_size) buf c
                brelse b)
                k₂)
              λ _ k₃. file_write_loop n i (buf + c) count next (written + c) k₃
      ]
    ]
  ]

  unfoldable pub file_write : Ptr → Ptr → ℕ → ℕ → Cmd ℤ
  unfolding file_write_loop take_bytes create_block bread brelse
  file_write i f buf count = do
    k ← gets λ k. k
    let append = has (k.file f).f_flags o_append
    let start = if append then (k.inode i).i_size else (k.file f).f_pos
    (place, written) ← file_write_loop m.rounds i buf count start 0
    now ← gets λ k. k.current_time
    set_inode i λ r. record r { i_mtime = now }
    when (not append)
        (do set_file f λ r. record r { f_pos = place }; set_inode i λ r. record r { i_ctime = now })
    pure (if written == 0 then negsuc 0 else signed written)
