-- ===== src/Fs/Inode/Keeps.antt =====
-- fs/inode.c: the look-up of a file's block without creating it.
use neantis.Prelude.{ℕ, ◌-◌, ◌%◌, ◌^◌, false, leb, ltb, ◌==◌}
use neantis.Fs.State.{Ptr, null, Kernel}
use neantis.Fs.Run.{Machine}
use neantis.Fs.Run.Gives.{returns, panics, Gives-then, Gives-branch}
use neantis.Fs.Run.Keeps.{Keeps}
use neantis.Fs.Cache.Keeps.{brelse-Keeps}
use neantis.Fs.Buffer.Loose.{IsLoose, IsLoose-IsStable, bread-IsLoose}
use neantis.Fs.Inode.{zones, max_block, create_zone, indirect, bmap_create, bmap}

module _ ⦃m : Machine⦄ {I : Kernel → Type 0} (loose : IsLoose I) where
  indirect-Keeps : (i : Ptr) (z n : ℕ) (k : Kernel) → I k → Keeps I (indirect i z n false k)
  unfolding indirect create_zone
  indirect-Keeps i z n k holds =
      let r = k.inode i in
      Gives-branch (r.i_zone z == 0) _ _ k (λ _. returns holds)
        λ _. Gives-then _ (bread-IsLoose loose r.i_dev (r.i_zone z) k holds) λ b k₁ holds₁.
          Gives-branch (b == null) _ _ k₁ (λ _. returns holds₁)
            λ _.
              Gives-then _ (brelse-Keeps (IsLoose-IsStable loose) b k₁ holds₁)
                λ _ k₂ holds₂. returns holds₂

  pub bmap-Keeps : (i : Ptr) (block : ℕ) (k : Kernel) → I k → Keeps I (bmap i block k)
  unfolding bmap bmap_create create_zone
  bmap-Keeps i block k holds =
      Gives-branch (leb (2 ^ 31) block) _ _ k (λ _. panics)
        λ _.
          Gives-branch (leb max_block block) _ _ k (λ _. panics)
            λ _.
              Gives-branch (ltb block 7) _ _ k (λ _. returns holds)
                λ _.
                  Gives-branch (ltb (block - 7) zones) _ _ k
                    (λ _. indirect-Keeps i 7 (block - 7) k holds)
                    λ _. indirect-Keeps i 8 ((block - 7 - zones) % zones) k holds
