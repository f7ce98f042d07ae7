-- ===== src/Fs/Buffer/Keeps.antt =====
-- fs/buffer.c: the synchronisation and the reading of blocks keep what is stable and what `getblk` keeps.
use neantis.Prelude.{ℕ, zero, suc, not, ◌&&◌, ◌==◌}
use neantis.Fs.State.{Ptr, null, Kernel}
use neantis.Fs.Run.{Cmd, Proc, Machine}
use neantis.Fs.Run.Gives.{returns, panics, stops, Gives-then, Gives-elim, Gives-branch}
use neantis.Fs.Run.Keeps.{Keeps, IsStable, for_range-Keeps}
use neantis.Fs.Cache.Keeps.{wait_on_buffer-Keeps, brelse-Keeps}
use neantis.Fs.Itable.Keeps.{sync_inodes-Keeps}
use neantis.Fs.Buffer.{read, write, write_buffers, sync_dev_with, bread_with, clean}

module _ ⦃m : Machine⦄ {I : Kernel → Type 0} (stable : IsStable I) where
  write_buffers-Keeps : (dev : ℕ) (k : Kernel) → I k → Keeps I (write_buffers dev k)
  unfolding write_buffers
  write_buffers-Keeps dev k holds =
      for_range-Keeps k.nr_buffers 1 _ k
        (λ b k holds.
          Gives-branch ((k.buffer b).b_dev == dev) _ _ k
            (λ _. Gives-then _ (wait_on_buffer-Keeps stable b k holds) λ _ k₁ holds₁.
              Gives-branch ((k₁.buffer b).b_dev == dev && not ((k₁.buffer b).b_dirt == 0)) _ _ k₁
                (λ _. returns (stable.drives write b k₁ holds₁)) λ _. returns holds₁)
            λ _. returns holds)
        holds

  module _ (bread : ℕ → ℕ → Cmd Ptr)
      (reads : (dev block : ℕ) (k : Kernel) → I k → Keeps I (bread dev block k)) where
    pub sync_dev_with-Keeps : (dev : ℕ) (k : Kernel) → I k → Keeps I (sync_dev_with bread dev k)
    unfolding sync_dev_with
    sync_dev_with-Keeps dev k holds = Gives-then _ (write_buffers-Keeps dev k holds) λ _ k₁ holds₁.
        Gives-then _ (sync_inodes-Keeps stable bread reads k₁ holds₁)
          λ _ k₂ holds₂. write_buffers-Keeps dev k₂ holds₂

  module _ (getblk : ℕ → ℕ → Cmd Ptr)
      (gets : (dev block : ℕ) (k : Kernel) → I k → Keeps I (getblk dev block k)) where
    pub bread_with-Keeps :
        (dev block : ℕ) (k : Kernel) → I k → Keeps I (bread_with getblk dev block k)
    unfolding bread_with
    bread_with-Keeps dev block k holds = Gives-then _ (gets dev block k holds) λ b k₁ holds₁.
        Gives-branch (b == null) _ _ k₁ (λ _. panics)
          λ _.
            Gives-branch (not ((k₁.buffer b).b_uptodate == 0)) _ _ k₁ (λ _. returns holds₁)
              λ _.
                Gives-then _ (wait_on_buffer-Keeps stable b _ (stable.drives read b k₁ holds₁))
                  λ _ k₂ holds₂.
                    Gives-branch (not ((k₂.buffer b).b_uptodate == 0)) _ _ k₂ (λ _. returns holds₂)
                      λ _.
                        Gives-then _ (brelse-Keeps stable b k₂ holds₂) λ _ k₃ holds₃. returns holds₃

  pub clean-Keeps :
      (sync_dev : ℕ → Proc)
      → ((dev : ℕ) (k : Kernel) → I k → Keeps I (sync_dev dev k))
      → (f : ℕ) (b : Ptr) (k : Kernel) → I k
      → Keeps I (clean sync_dev f b k)
  unfolding clean
  clean-Keeps sync_dev syncs zero b k holds = stops
  clean-Keeps sync_dev syncs (suc f) b k holds =
      let again = clean-Keeps sync_dev syncs f b in
      Gives-elim ((k.buffer b).b_dirt == 0) (λ _. returns holds)
        λ _.
          Gives-then _
            (Gives-then _ (syncs (k.buffer b).b_dev k holds)
              λ _ k₁ holds₁. wait_on_buffer-Keeps stable b k₁ holds₁)
            λ _ k₂ holds₂.
              Gives-elim ((k₂.buffer b).b_count == 0) (λ _. again k₂ holds₂) λ _. returns holds₂
