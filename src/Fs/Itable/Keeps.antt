-- ===== src/Fs/Itable/Keeps.antt =====
-- fs/inode.c: writing the inode table keeps what is stable and what `bread` keeps.
use neantis.Prelude.{ℕ, refl, arith, ◌==◌, ◌||◌, ◌&&◌, not}
use neantis.Fs.State.{Ptr, null, nr_inode, Kernel}
use neantis.Fs.Run.{Cmd, Proc, Machine, ◌>>=◌, ◌>>◌, gets, when}
use neantis.Fs.Run.Gives.{returns, panics, Gives-then, Gives-branch}
use neantis.Fs.Run.Keeps.{Keeps, IsStable, wait_while-Keeps, for_range-Keeps, when-Keeps}
use neantis.Fs.Cache.Keeps.{get_super-Keeps, brelse-Keeps}
use neantis.Fs.Itable.{
  wait_on_inode, lock_inode, unlock_inode, write_inode, sync_inodes, inode_block,
}

module _ ⦃m : Machine⦄ {I : Kernel → Type 0} (stable : IsStable I) where
  pub wait_on_inode-Keeps : (i : Ptr) (k : Kernel) → I k → Keeps I (wait_on_inode i k)
  unfolding wait_on_inode
  wait_on_inode-Keeps i k holds = wait_while-Keeps stable.sleeps m.rounds _ k holds

  lock_inode-Keeps : (i : Ptr) (k : Kernel) → I k → Keeps I (lock_inode i k)
  unfolding lock_inode
  lock_inode-Keeps i k holds =
      Gives-then _ (wait_while-Keeps stable.sleeps m.rounds _ k holds)
        λ _ k₁ holds₁. returns (stable.inodes _ k₁ (λ j. ground arith) holds₁)

  unlock_inode-Keeps : (i : Ptr) (k : Kernel) → I k → Keeps I (unlock_inode i k)
  unfolding unlock_inode
  unlock_inode-Keeps i k holds = returns (stable.inodes _ k (λ j. ground arith) holds)

  module _ (bread : ℕ → ℕ → Cmd Ptr)
      (reads : (dev block : ℕ) (k : Kernel) → I k → Keeps I (bread dev block k)) where
    pub write_inode-Keeps : (i : Ptr) (k : Kernel) → I k → Keeps I (write_inode bread i k)
    unfolding write_inode
    write_inode-Keeps i k holds = Gives-then _ (lock_inode-Keeps i k holds) λ _ k₁ holds₁.
        let r = k₁.inode i in
        Gives-branch (r.i_dirt == 0 || r.i_dev == 0) _ _ k₁ (λ _. unlock_inode-Keeps i k₁ holds₁)
          λ _. Gives-then _ (get_super-Keeps stable r.i_dev k₁ holds₁) λ s k₂ holds₂.
            Gives-branch (s == null) _ _ k₂ (λ _. panics)
              λ _.
                let r = k₂.inode i in
                Gives-then _ (reads r.i_dev (inode_block (k₂.super_block s) r.i_num) k₂ holds₂)
                  λ b k₃ holds₃.
                    Gives-branch (b == null) _ _ k₃ (λ _. panics)
                      λ _.
                        Gives-then _
                          (brelse-Keeps stable b _ (
                            stable.inodes _ _ (λ j. ground arith)
                              (stable.heads b _ k₃ refl refl holds₃)))
                          λ _ k₄ holds₄. unlock_inode-Keeps i k₄ holds₄

    -- The body of the loop of `sync_inodes`.
    unfoldable sync_inode : Ptr → Proc
    sync_inode i = do
      wait_on_inode i
      r ← gets λ k. k.inode i
      when (not (r.i_dirt == 0) && r.i_pipe == 0) (write_inode bread i)

    sync_inode-Keeps : (i : Ptr) (k : Kernel) → I k → Keeps I (sync_inode i k)
    unfolding sync_inode
    sync_inode-Keeps i k holds = Gives-then _ (wait_on_inode-Keeps i k holds) λ _ k₁ holds₁.
        let r = k₁.inode i in
        when-Keeps (not (r.i_dirt == 0) && r.i_pipe == 0) (write_inode bread i) k₁
          (write_inode-Keeps i k₁) holds₁

    pub sync_inodes-Keeps : (k : Kernel) → I k → Keeps I (sync_inodes bread k)
    unfolding sync_inodes sync_inode
    sync_inodes-Keeps k holds = for_range-Keeps nr_inode 1 sync_inode k sync_inode-Keeps holds
