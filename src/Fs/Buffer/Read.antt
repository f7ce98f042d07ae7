-- ===== src/Fs/Buffer/Read.antt =====
-- fs/buffer.c: what `bread` returns.
use neantis.Prelude.{ℕ, ◌≡◌, refl, ◌≢◌, ◌⊎◌, inl, inr, not, arith, ◌==◌}
use neantis.Fs.State.{Ptr, null, Kernel}
use neantis.Fs.Run.{ok, Cmd, ◌>>◌, Machine}
use neantis.Fs.Run.Gives.{Gives, returns, panics, Gives-bind, Gives-branch, Gives-ok}
use neantis.Fs.Cache.{wait_on_buffer, brelse}
use neantis.Fs.Buffer.{read, ll_rw_block, getblk, bread_with, bread}

abbrev IsRead : Ptr → Kernel → Type 0
IsRead b k = (b ≡ null) ⊎ ((b ≢ null) × ((k.buffer b).b_uptodate ≢ 0))

module _ ⦃m : Machine⦄ where
  bread_with-IsRead :
      (get : ℕ → ℕ → Cmd Ptr) (dev block : ℕ) (k : Kernel)
      → Gives IsRead (bread_with get dev block k)
  unfolding bread_with
  bread_with-IsRead get dev block k = Gives-bind (get dev block k) λ b k₁.
      Gives-branch (b == null) _ _ k₁ (λ _. panics)
        λ real.
          Gives-branch (not ((k₁.buffer b).b_uptodate == 0)) _ _ k₁
            (λ fresh. returns (inr (ground arith, ground arith)))
            λ _. Gives-bind ((ll_rw_block read b >> wait_on_buffer b) k₁) λ _ k₂.
              Gives-branch (not ((k₂.buffer b).b_uptodate == 0)) _ _ k₂
                (λ fresh. returns (inr (ground arith, ground arith)))
                (λ _. Gives-bind (brelse b k₂) λ _ k₃. returns (inl refl))

  -- Whatever the other tasks and the drivers do, a buffer that `bread` returns is marked as read.
  pub bread-uptodate :
      (dev block : ℕ) (k k' : Kernel) (b : Ptr)
      → bread dev block k ≡ ok b k'
      → b ≢ null
      → (k'.buffer b).b_uptodate ≢ 0
  unfolding bread
  bread-uptodate dev block k k' b e found =
      either (Gives-ok (bread_with-IsRead getblk dev block k) e)
    where
      either : IsRead b k' → (k'.buffer b).b_uptodate ≢ 0
      either (inl p) = absurd (found p)
      either (inr (_, p)) = p
