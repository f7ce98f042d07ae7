-- ===== src/Fs/Buffer/Get.antt =====
-- fs/buffer.c: `getblk` keeps what is stable and what the taking of a buffer keeps.
use neantis.Prelude.{ℕ, zero, suc, ◌≡◌, arith, inl, inr, ◌⊎◌, not, false, ◌==◌}
use neantis.Fs.State.{Ptr, null, Kernel}
use neantis.Fs.Run.{Cmd, Proc, Machine}
use neantis.Fs.Run.Gives.{Gives, returns, stops, Gives-then, Gives-branch}
use neantis.Fs.Run.Keeps.{Keeps, IsStable}
use neantis.Fs.Cache.{pick_from}
use neantis.Fs.Cache.Keeps.{get_hash_table-Keeps, find_buffer-Keeps, wait_on_buffer-Keeps}
use neantis.Fs.Buffer.{sync_dev_with, bread_with, claim, getblk_pass, getblk_at, getblk}
use neantis.Fs.Buffer.Keeps.{sync_dev_with-Keeps, bread_with-Keeps, clean-Keeps}

-- `Q` holds of the buffers that the walk picks.
module _ ⦃m : Machine⦄ {I : Kernel → Type 0} {Q : Ptr → Type 0} (stable : IsStable I)
    (picks : (k : Kernel)
      → I k
      → Gives (λ b k'. ((b ≡ null) ⊎ Q b) × I k') (pick_from m.rounds k.free_list null k))
    (claims : (dev block : ℕ) (b : Ptr) (k : Kernel)
      → Q b
      → I k
      → Keeps I (claim dev block b k)) where
  getblk_pass-Keeps :
      (again : Cmd Ptr) (sync_dev : ℕ → Proc) (dev block : ℕ) (k : Kernel)
      → ((k : Kernel) → I k → Keeps I (again k))
      → ((dev : ℕ) (k : Kernel) → I k → Keeps I (sync_dev dev k))
      → I k
      → Keeps I (getblk_pass again sync_dev dev block k)
  unfolding getblk_pass
  getblk_pass-Keeps again sync_dev dev block k more syncs holds =
      Gives-then _ (get_hash_table-Keeps stable dev block k holds) λ hit k₁ holds₁.
        Gives-branch (not (hit == null)) _ _ k₁ (λ _. returns holds₁)
          λ _. Gives-then _ (picks k₁ holds₁) λ b k₂ (found, holds₂).
            Gives-branch (b == null) _ _ k₂ (λ _. more _ (stable.sleeps k₂ holds₂))
              λ real. Gives-then _ (wait_on_buffer-Keeps stable b k₂ holds₂) λ _ k₃ holds₃.
                Gives-branch (not ((k₃.buffer b).b_count == 0)) _ _ k₃ (λ _. more _ holds₃)
                  λ _.
                    Gives-then _ (clean-Keeps stable sync_dev syncs m.rounds b k₃ holds₃)
                      λ taken k₄ holds₄.
                        Gives-branch taken _ _ k₄ (λ _. more _ holds₄)
                          λ _.
                            Gives-then _ (find_buffer-Keeps stable dev block k₄ holds₄)
                              λ other k₅ holds₅.
                                Gives-branch (not (other == null)) _ _ k₅ (λ _. more _ holds₅)
                                  λ _.
                                    Gives-then _ (claims dev block b k₅ (one_of found real) holds₅)
                                      λ _ k₆ holds₆. returns holds₆
    where
      one_of : {b : Ptr} → (b ≡ null) ⊎ Q b → (b == null) ≡ false → Q b
      one_of {b} (inl e) real = absurd (ground (arith, e, real))
      one_of (inr m) real = m

  getblk_at-Keeps : (f dev block : ℕ) (k : Kernel) → I k → Keeps I (getblk_at f dev block k)
  unfolding getblk_at
  getblk_at-Keeps zero dev block k holds = stops
  getblk_at-Keeps (suc f) dev block k holds =
      let inner = getblk_at-Keeps f in
      getblk_pass-Keeps (getblk_at f dev block) (sync_dev_with (bread_with (getblk_at f))) dev block
        k (inner dev block)
        (sync_dev_with-Keeps stable (bread_with (getblk_at f))
          (bread_with-Keeps stable (getblk_at f) inner))
        holds

  pub getblk-Keeps : (dev block : ℕ) (k : Kernel) → I k → Keeps I (getblk dev block k)
  unfolding getblk
  getblk-Keeps = getblk_at-Keeps m.rounds
