-- ===== src/Fs/Buffer/Page.antt =====
-- fs/buffer.c: `bread_page`, which reads four blocks into a page of memory.
use neantis.Prelude.{ℕ, ◌+◌, ◌==◌, if◌then◌else◌, not, List, [], ◌∷◌}
use neantis.Fs.State.{Ptr, null, block_size, Kernel}
use neantis.Fs.Run.{Cmd, Proc, pure, ◌>>=◌, ◌>>◌, Machine, gets, modify, when}
use neantis.Fs.Cache.{wait_on_buffer, brelse}
use neantis.Fs.Buffer.{read, getblk, ll_rw_block}
use neantis.Fs.Pipe.{copy}

-- `COPYBLK`
unfoldable pub copy_block : Ptr → ℕ → Kernel → Kernel
unfolding copy
copy_block b address k = record k {
  memory = record k.memory { phys = copy block_size (k.buffer b).b_data 0 k.memory.phys address };
}

module _ ⦃m : Machine⦄ where
  -- The first loop: the buffers of the blocks, which the driver begins to read.
  unfoldable pub begin_reads : ℕ → List ℕ → Cmd (List Ptr)
  unfolding getblk
  begin_reads dev [] = pure []
  begin_reads dev (block ∷ blocks) = do
    b ← if block == 0 then pure null else getblk dev block
    h ← gets λ k. k.buffer b
    when (not (b == null)) (when (h.b_uptodate == 0) (ll_rw_block read b))
    rest ← begin_reads dev blocks
    pure (b ∷ rest)

  -- The second loop: what has been read goes to `address` and the blocks behind it.
  unfoldable pub end_reads : ℕ → List Ptr → Proc
  unfolding wait_on_buffer copy_block brelse
  end_reads address [] = pure tt
  end_reads address (b ∷ bs) = do
    when (not (b == null)) (do
      wait_on_buffer b
      h ← gets λ k. k.buffer b
      when (not (h.b_uptodate == 0)) (modify (copy_block b address))
      brelse b)
    end_reads (address + block_size) bs

  unfoldable pub bread_page : ℕ → ℕ → ℕ × ℕ × ℕ × ℕ → Proc
  unfolding begin_reads end_reads
  bread_page address dev (b₀, b₁, b₂, b₃) = do
    bs ← begin_reads dev (b₀ ∷ b₁ ∷ b₂ ∷ b₃ ∷ [])
    end_reads address bs
