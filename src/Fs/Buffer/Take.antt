-- ===== src/Fs/Buffer/Take.antt =====
-- fs/buffer.c: which buffer `getblk` returns.
use neantis.Prelude.{ℕ, zero, suc, ◌^◌, ◌<◌, ◌≡◌, ◌≢◌, inl, inr, not, arith, ◌==◌}
use neantis.Fs.State.{Ptr, null, Kernel}
use neantis.Fs.Run.{ok, Cmd, Proc, Machine}
use neantis.Fs.Run.Gives.{Gives, returns, stops, Gives-bind, Gives-then, Gives-branch, Gives-ok}
use neantis.Fs.Cache.{wait_on_buffer, get_hash_table, find_buffer, pick_from, remove_from_queues}
use neantis.Fs.Cache.Hash.{IsOf, IsHit, get_hash_table-IsHit}
use neantis.Fs.Cache.Links.{IsFor, insert_into_queues-IsFor}
use neantis.Fs.Buffer.{sync_dev_with, bread_with, clean, claim, getblk_pass, getblk_at, getblk}

claim-IsFor :
    (dev block : ℕ) (b : Ptr) (k : Kernel)
    → dev < 2 ^ 16
    → Gives (λ _. IsFor dev block b) (claim dev block b k)
claim-IsFor dev block b k small =
    Gives-bind (remove_from_queues b _)
      λ _ k₁. insert_into_queues-IsFor b _ (ground arith, ground arith)

IsHit-IsOf :
    (dev block : ℕ) (b : Ptr) (k : Kernel) → IsHit dev block b k → b ≢ null → IsOf dev block b k
IsHit-IsOf dev block b k (inl p) real = absurd (real p)
IsHit-IsOf dev block b k (inr p) real = p.0

module _ ⦃m : Machine⦄ where
  getblk_pass-IsOf :
      (again : Cmd Ptr) (sync_dev : ℕ → Proc) (dev block : ℕ) (k : Kernel)
      → dev < 2 ^ 16
      → ((k' : Kernel) → Gives (IsOf dev block) (again k'))
      → Gives (IsOf dev block) (getblk_pass again sync_dev dev block k)
  unfolding getblk_pass
  getblk_pass-IsOf again sync_dev dev block k small more =
      Gives-then (get_hash_table dev block k) (get_hash_table-IsHit dev block k) λ hit k₁ is.
        Gives-branch (not (hit == null)) _ _ k₁
          (λ found. returns (IsHit-IsOf dev block hit k₁ is (ground arith)))
          λ _. Gives-bind (pick_from m.rounds k₁.free_list null k₁) λ b k₂.
            Gives-branch (b == null) _ _ k₂ (λ _. more _)
              λ real. Gives-bind (wait_on_buffer b k₂) λ _ k₃.
                Gives-branch (not ((k₃.buffer b).b_count == 0)) _ _ k₃ (λ _. more _)
                  λ _. Gives-bind (clean sync_dev m.rounds b k₃) λ taken k₄.
                    Gives-branch taken _ _ k₄ (λ _. more _)
                      λ _. Gives-bind (find_buffer dev block k₄) λ other k₅.
                        Gives-branch (not (other == null)) _ _ k₅ (λ _. more _)
                          λ _.
                            Gives-then (claim dev block b k₅) (claim-IsFor dev block b k₅ small)
                              λ _ k₆ is. returns (ground arith, is.0, is.1)

  getblk_at-IsOf :
      (f dev block : ℕ) (k : Kernel)
      → dev < 2 ^ 16
      → Gives (IsOf dev block) (getblk_at f dev block k)
  unfolding getblk_at
  getblk_at-IsOf zero dev block k small = stops
  getblk_at-IsOf (suc f) dev block k small =
      getblk_pass-IsOf (getblk_at f dev block) (sync_dev_with (bread_with (getblk_at f))) dev block
        k small λ k'. getblk_at-IsOf f dev block k' small

  -- `getblk` never returns NULL: what it returns is a buffer of the device and the block that were
  -- asked for, whether it was in the cache or has been taken over for them, and whatever the other
  -- tasks and the drivers do while it waits. A device number has 16 bits.
  pub getblk-IsOf :
      (dev block : ℕ) (k k' : Kernel) (b : Ptr)
      → dev < 2 ^ 16
      → getblk dev block k ≡ ok b k'
      → (b ≢ null) × ((k'.buffer b).b_dev ≡ dev) × ((k'.buffer b).b_blocknr ≡ block)
  unfolding getblk
  getblk-IsOf dev block k k' b small e = Gives-ok (getblk_at-IsOf m.rounds dev block k small) e
