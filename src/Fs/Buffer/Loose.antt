-- ===== src/Fs/Buffer/Loose.antt =====
-- fs/buffer.c: the cache keeps what does not depend on the cache.
use neantis.Prelude.{
  ℕ, zero, suc, ◌≡◌, not, ◌&&◌, ◌||◌, ◌==◌, if◌then◌else◌, inl, inr, ◌⊎◌, Bool-cases, update,
}
use neantis.Mm.{Memory}
use neantis.Fs.State.{Ptr, null, BufferHead, MInode, Kernel}
use neantis.Fs.Run.{Machine}
use neantis.Fs.Run.Gives.{Gives, returns, panics, stops, Gives-then, Gives-elim, Gives-branch}
use neantis.Fs.Run.Keeps.{Keeps, IsStable}
use neantis.Fs.Cache.{
  hashfn, pick_from, is_better, badness, assign, remove_from_queues, insert_into_queues,
}
use neantis.Fs.Buffer.{claim, getblk, bread}
use neantis.Fs.Buffer.Get.{getblk-Keeps}
use neantis.Fs.Buffer.Calls.{bread-Keeps}

-- The other tasks and the drivers keep `I`, and it depends on nothing of the cache and the memory, and of the
-- inodes at most on their counts.
pub record IsLoose ⦃m : Machine⦄ (I : Kernel → Type 0) : Type 0 where
  pub sleeps : (k : Kernel) → I k → I (m.sleep_on k)
  pub drives : (rw : ℕ) (b : Ptr) (k : Kernel) → I k → I (m.ll_rw_block rw b k)
  pub cache :
      (b : Ptr → BufferHead) (h : ℕ → Ptr) (f : Ptr) (k : Kernel)
      → I k
      → I (record k { buffer = b; hash_table = h; free_list = f })
  pub inodes :
      (t : Ptr → MInode) (k : Kernel)
      → ((i : Ptr) → (t i).i_count ≡ (k.inode i).i_count)
      → I k
      → I (record k { inode = t })
  pub memory : (p : Memory) (k : Kernel) → I k → I (record k { memory = p })

module _ ⦃m : Machine⦄ {I : Kernel → Type 0} (loose : IsLoose I) where
  buffers : (b : Ptr → BufferHead) (k : Kernel) → I k → I (record k { buffer = b })
  buffers b k holds = loose.cache b k.hash_table k.free_list k holds

  assign-Keeps :
      (at : Kernel → Ptr) (f : Kernel → BufferHead → BufferHead) (k : Kernel)
      → I k
      → Keeps I (assign at f k)
  unfolding assign
  assign-Keeps at f k holds = returns (buffers _ k holds)

  remove_from_queues-Keeps : (b : Ptr) (k : Kernel) → I k → Keeps I (remove_from_queues b k)
  unfolding remove_from_queues
  remove_from_queues-Keeps b k holds =
      Gives-then _
        (Gives-branch (not ((k.buffer b).b_next == null)) _ _ k (λ _. returns (buffers _ k holds))
          λ _. returns holds)
        λ _ k₁ holds₁.
          Gives-then _
            (Gives-branch (not ((k₁.buffer b).b_prev == null)) _ _ k₁
              (λ _. returns (buffers _ k₁ holds₁)) λ _. returns holds₁)
            λ _ k₂ holds₂.
              let h = k₂.buffer b in
              Gives-then _
                (Gives-branch (k₂.hash_table (hashfn h.b_dev h.b_blocknr) == b) _ _ k₂
                  (λ _. returns (loose.cache k₂.buffer _ k₂.free_list k₂ holds₂))
                  λ _. returns holds₂)
                λ _ k₃ holds₃.
                  let g = k₃.buffer b in
                  Gives-branch (g.b_prev_free == null || g.b_next_free == null) _ _ k₃ (λ _. panics)
                    λ _.
                      let k₄ : Kernel = record k₃ {
                        buffer =
                            update k₃.buffer g.b_prev_free
                              (record (k₃.buffer g.b_prev_free) { b_next_free = g.b_next_free });
                      } in
                      returns (moved _ (buffers _ k₄ (buffers _ k₃ holds₃)))
    where
      moved :
          (k : Kernel)
          → I k
          → I (if k.free_list == b then record k { free_list = (k.buffer b).b_next_free } else k)
      moved k holds = elim (Bool-cases (k.free_list == b)) [
        | inl e ↦ rw e (loose.cache k.buffer k.hash_table _ k holds)
        | inr e ↦ rw e holds
      ]

  insert_into_queues-Keeps : (b : Ptr) (k : Kernel) → I k → Keeps I (insert_into_queues b k)
  unfolding insert_into_queues
  insert_into_queues-Keeps b k holds = Gives-then _ (assign-Keeps _ _ k holds) λ _ k₁ holds₁.
      Gives-then _ (assign-Keeps _ _ k₁ holds₁) λ _ k₂ holds₂.
        Gives-then _ (assign-Keeps _ _ k₂ holds₂) λ _ k₃ holds₃.
          Gives-then _ (assign-Keeps _ _ k₃ holds₃) λ _ k₄ holds₄.
            Gives-then _ (assign-Keeps _ _ k₄ holds₄) λ _ k₅ holds₅.
              Gives-then _ (assign-Keeps _ _ k₅ holds₅) λ _ k₆ holds₆.
                Gives-branch ((k₆.buffer b).b_dev == 0) _ _ k₆ (λ _. returns holds₆)
                  λ _. Gives-then _ (assign-Keeps _ _ k₆ holds₆) λ _ k₇ holds₇.
                    assign-Keeps _ _ _ (loose.cache k₇.buffer _ k₇.free_list k₇ holds₇)

  claim-Keeps :
      (dev block : ℕ) (b : Ptr) (k : Kernel) → Unit {0} → I k → Keeps I (claim dev block b k)
  claim-Keeps dev block b k _ holds =
      Gives-then _ (remove_from_queues-Keeps b _ (buffers _ k holds))
        λ _ k₁ holds₁. insert_into_queues-Keeps b _ (buffers _ k₁ holds₁)

  pick_from-Keeps :
      (f : ℕ) (t best : Ptr) (k : Kernel)
      → I k
      → Gives (λ b k'. ((b ≡ null) ⊎ Unit {0}) × I k') (pick_from f t best k)
  unfolding pick_from
  pick_from-Keeps zero t best k holds = stops
  pick_from-Keeps (suc f) t best k holds =
      let next = (k.buffer t).b_next_free in
      let rest = pick_from-Keeps f next (if is_better k t best then t else best) k holds in
      Gives-elim (is_better k t best && badness (k.buffer t) == 0) (λ _. returns (inr tt, holds))
        λ _. Gives-elim (next == k.free_list) (λ _. returns (inr tt, holds)) λ _. rest

  pub IsLoose-IsStable : IsStable I
  IsLoose-IsStable = record {
    sleeps = loose.sleeps;
    drives = loose.drives;
    heads = λ p h k e e' holds. buffers _ k holds;
    inodes = loose.inodes;
    memory = loose.memory;
  }

  getblk-IsLoose : (dev block : ℕ) (k : Kernel) → I k → Keeps I (getblk dev block k)
  getblk-IsLoose =
      getblk-Keeps {Q = λ _. Unit {0}} IsLoose-IsStable
        (λ k holds. pick_from-Keeps m.rounds k.free_list null k holds) claim-Keeps

  pub bread-IsLoose : (dev block : ℕ) (k : Kernel) → I k → Keeps I (bread dev block k)
  bread-IsLoose = bread-Keeps IsLoose-IsStable getblk-IsLoose
