-- ===== src/Fs/Buffer/Calls.antt =====
-- fs/buffer.c: the free list along the calls of the cache, in any order.
use neantis.Prelude.{ℕ, ◌+◌, ◌<◌, ◌≡◌, refl, not, ◌==◌, List, [], ◌∷◌, length}
use neantis.Fs.State.{Ptr, null, block_size, Kernel}
use neantis.Fs.Run.{ok, Machine}
use neantis.Fs.Run.Gives.{returns, panics, Gives-then, Gives-branch, Gives-ok}
use neantis.Fs.Run.Keeps.{Keeps, IsStable, for_range-Keeps}
use neantis.Fs.Cache.{brelse, get_hash_table}
use neantis.Fs.Cache.Keeps.{get_hash_table-Keeps, brelse-Keeps, wait_on_buffer-Keeps}
use neantis.Fs.Itable.Keeps.{sync_inodes-Keeps}
use neantis.Fs.Buffer.{
  read, write, reada, getblk, bread, sync_dev, sys_sync, invalidate_buffers, read_ahead, breada,
}
use neantis.Fs.Buffer.Page.{begin_reads, end_reads, bread_page}
use neantis.Fs.Buffer.Keeps.{sync_dev_with-Keeps, bread_with-Keeps}
use neantis.Fs.Buffer.Order.{IsFreeOf, IsFreeOf-IsStable, getblk-IsFreeOf}

module _ ⦃m : Machine⦄ {I : Kernel → Type 0} (stable : IsStable I)
    (takes : (dev block : ℕ) (k : Kernel) → I k → Keeps I (getblk dev block k)) where
  pub bread-Keeps : (dev block : ℕ) (k : Kernel) → I k → Keeps I (bread dev block k)
  unfolding bread
  bread-Keeps = bread_with-Keeps stable getblk takes

  sync_dev-Keeps : (dev : ℕ) (k : Kernel) → I k → Keeps I (sync_dev dev k)
  unfolding sync_dev
  sync_dev-Keeps = sync_dev_with-Keeps stable bread bread-Keeps

  sys_sync-Keeps : (k : Kernel) → I k → Keeps I (sys_sync k)
  unfolding sys_sync
  sys_sync-Keeps k holds =
      Gives-then _ (sync_inodes-Keeps stable bread bread-Keeps k holds) λ _ k₁ holds₁.
        Gives-then _
          (for_range-Keeps k₁.nr_buffers 1 _ k₁
            (λ b k holds. Gives-then _ (wait_on_buffer-Keeps stable b k holds) λ _ k₂ holds₂.
              Gives-branch (not ((k₂.buffer b).b_dirt == 0)) _ _ k₂
                (λ _. returns (stable.drives write b k₂ holds₂)) λ _. returns holds₂)
            holds₁)
          λ _ k₃ holds₃. returns holds₃

  invalidate_buffers-Keeps : (dev : ℕ) (k : Kernel) → I k → Keeps I (invalidate_buffers dev k)
  unfolding invalidate_buffers
  invalidate_buffers-Keeps dev k holds =
      for_range-Keeps k.nr_buffers 1 _ k
        (λ b k holds.
          Gives-branch ((k.buffer b).b_dev == dev) _ _ k
            (λ _. Gives-then _ (wait_on_buffer-Keeps stable b k holds) λ _ k₁ holds₁.
              Gives-branch ((k₁.buffer b).b_dev == dev) _ _ k₁
                (λ _. returns (stable.heads b _ k₁ refl refl holds₁)) λ _. returns holds₁)
            λ _. returns holds)
        holds

  read_ahead-Keeps :
      (dev : ℕ) (b : Ptr) (blocks : List ℕ) (k : Kernel) → I k → Keeps I (read_ahead dev b blocks k)
  unfolding read_ahead
  read_ahead-Keeps dev b [] k holds = returns holds
  read_ahead-Keeps dev b (block ∷ blocks) k holds =
      let rest = read_ahead-Keeps dev b blocks in
      Gives-then _ (takes dev block k holds) λ t k₁ holds₁.
        Gives-then _
          (Gives-branch (not (t == null)) _ _ k₁
            (λ _.
              Gives-then _
                (Gives-branch ((k₁.buffer t).b_uptodate == 0) _ _ k₁
                  (λ _. returns (stable.drives reada b k₁ holds₁)) λ _. returns holds₁)
                λ _ k₂ holds₂. returns (stable.heads t _ k₂ refl refl holds₂))
            λ _. returns holds₁)
          λ _ k₃ holds₃. rest k₃ holds₃

  breada-Keeps :
      (dev first : ℕ) (blocks : List ℕ) (k : Kernel) → I k → Keeps I (breada dev first blocks k)
  unfolding breada
  breada-Keeps dev first blocks k holds = Gives-then _ (takes dev first k holds) λ b k₁ holds₁.
      Gives-branch (b == null) _ _ k₁ (λ _. panics)
        λ _.
          Gives-then _
            (Gives-branch ((k₁.buffer b).b_uptodate == 0) _ _ k₁
              (λ _. returns (stable.drives read b k₁ holds₁)) λ _. returns holds₁)
            λ _ k₂ holds₂. Gives-then _ (read_ahead-Keeps dev b blocks k₂ holds₂) λ _ k₃ holds₃.
              Gives-then _ (wait_on_buffer-Keeps stable b k₃ holds₃) λ _ k₄ holds₄.
                Gives-branch (not ((k₄.buffer b).b_uptodate == 0)) _ _ k₄ (λ _. returns holds₄)
                  λ _. Gives-then _ (brelse-Keeps stable b k₄ holds₄) λ _ k₅ holds₅. returns holds₅

  begin_reads-Keeps :
      (dev : ℕ) (blocks : List ℕ) (k : Kernel) → I k → Keeps I (begin_reads dev blocks k)
  unfolding begin_reads
  begin_reads-Keeps dev [] k holds = returns holds
  begin_reads-Keeps dev (block ∷ blocks) k holds =
      let rest = begin_reads-Keeps dev blocks in
      Gives-then _
        (Gives-branch (block == 0) _ _ k (λ _. returns holds) λ _. takes dev block k holds)
        λ b k₁ holds₁.
          Gives-then _
            (Gives-branch (not (b == null)) _ _ k₁
              (λ _.
                Gives-branch ((k₁.buffer b).b_uptodate == 0) _ _ k₁
                  (λ _. returns (stable.drives read b k₁ holds₁)) λ _. returns holds₁)
              λ _. returns holds₁)
            λ _ k₂ holds₂. Gives-then _ (rest k₂ holds₂) λ _ k₃ holds₃. returns holds₃

  end_reads-Keeps :
      (address : ℕ) (bs : List Ptr) (k : Kernel) → I k → Keeps I (end_reads address bs k)
  unfolding end_reads
  end_reads-Keeps address [] k holds = returns holds
  end_reads-Keeps address (b ∷ bs) k holds =
      let rest = end_reads-Keeps (address + block_size) bs in
      Gives-then _
        (Gives-branch (not (b == null)) _ _ k
          (λ _. Gives-then _ (wait_on_buffer-Keeps stable b k holds) λ _ k₁ holds₁.
            Gives-then _
              (Gives-branch (not ((k₁.buffer b).b_uptodate == 0)) _ _ k₁
                (λ _. returns (stable.memory _ k₁ holds₁)) λ _. returns holds₁)
              λ _ k₂ holds₂. brelse-Keeps stable b k₂ holds₂)
          λ _. returns holds)
        λ _ k₃ holds₃. rest k₃ holds₃

  bread_page-Keeps :
      (address dev : ℕ) (blocks : ℕ × ℕ × ℕ × ℕ) (k : Kernel)
      → I k
      → Keeps I (bread_page address dev blocks k)
  unfolding bread_page
  bread_page-Keeps address dev (b₀, b₁, b₂, b₃) k holds =
      Gives-then _ (begin_reads-Keeps dev (b₀ ∷ b₁ ∷ b₂ ∷ b₃ ∷ []) k holds)
        λ bs k₁ holds₁. end_reads-Keeps address bs k₁ holds₁

module _ ⦃m : Machine⦄ where
  -- A call of the cache that returns, or a moment at which other tasks run or a driver does.
  pub data Call : Kernel → Kernel → Type 0 where
    sleeps : {k : Kernel} → Call k (m.sleep_on k)
    drives : (rw : ℕ) (b : Ptr) {k : Kernel} → Call k (m.ll_rw_block rw b k)
    gets : (dev block : ℕ) {b : Ptr} {k k' : Kernel} → getblk dev block k ≡ ok b k' → Call k k'
    reads : (dev block : ℕ) {b : Ptr} {k k' : Kernel} → bread dev block k ≡ ok b k' → Call k k'
    reads_ahead :
        (dev first : ℕ) (blocks : List ℕ) {b : Ptr} {k k' : Kernel}
        → breada dev first blocks k ≡ ok b k'
        → Call k k'
    reads_page :
        (address dev : ℕ) (blocks : ℕ × ℕ × ℕ × ℕ) {k k' : Kernel}
        → bread_page address dev blocks k ≡ ok tt k'
        → Call k k'
    looks_up :
        (dev block : ℕ) {b : Ptr} {k k' : Kernel} → get_hash_table dev block k ≡ ok b k' → Call k k'
    releases : (b : Ptr) {k k' : Kernel} → brelse b k ≡ ok tt k' → Call k k'
    syncs : (dev : ℕ) {k k' : Kernel} → sync_dev dev k ≡ ok tt k' → Call k k'
    syncs_all : {k k' : Kernel} {r : ℕ} → sys_sync k ≡ ok r k' → Call k k'
    invalidates : (dev : ℕ) {k k' : Kernel} → invalidate_buffers dev k ≡ ok tt k' → Call k k'

  -- Calls one after the other.
  pub data Calls : Kernel → Kernel → Type 0 where
    no_call : {k : Kernel} → Calls k k
    next_call : {k k₁ k' : Kernel} → Call k k₁ → Calls k₁ k' → Calls k k'

  module _ {ys : List Ptr} (two : 1 < length ys)
      (slept : (k : Kernel) → IsFreeOf ys k → IsFreeOf ys (m.sleep_on k))
      (driven : (rw : ℕ) (b : Ptr) (k : Kernel)
        → IsFreeOf ys k
        → IsFreeOf ys (m.ll_rw_block rw b k)) where
    stable : IsStable (IsFreeOf ys)
    stable = IsFreeOf-IsStable two slept driven

    taken : (dev block : ℕ) (k : Kernel) → IsFreeOf ys k → Keeps (IsFreeOf ys) (getblk dev block k)
    taken = getblk-IsFreeOf two slept driven

    Call-IsFreeOf : {k k' : Kernel} → Call k k' → IsFreeOf ys k → IsFreeOf ys k'
    Call-IsFreeOf {k} sleeps ring = slept k ring
    Call-IsFreeOf {k} (drives rw b) ring = driven rw b k ring
    Call-IsFreeOf {k} (gets dev block e) ring = Gives-ok (taken _ _ k ring) e
    Call-IsFreeOf {k} (reads dev block e) ring = Gives-ok (bread-Keeps stable taken _ _ k ring) e
    Call-IsFreeOf {k} (reads_ahead dev first blocks e) ring =
        Gives-ok (breada-Keeps stable taken _ _ _ k ring) e
    Call-IsFreeOf {k} (reads_page address dev blocks e) ring =
        Gives-ok (bread_page-Keeps stable taken address dev blocks k ring) e
    Call-IsFreeOf {k} (looks_up dev block e) ring =
        Gives-ok (get_hash_table-Keeps stable dev block k ring) e
    Call-IsFreeOf {k} (releases b e) ring = Gives-ok (brelse-Keeps stable _ k ring) e
    Call-IsFreeOf {k} (syncs dev e) ring = Gives-ok (sync_dev-Keeps stable taken _ k ring) e
    Call-IsFreeOf {k} (syncs_all e) ring = Gives-ok (sys_sync-Keeps stable taken k ring) e
    Call-IsFreeOf {k} (invalidates dev e) ring =
        Gives-ok (invalidate_buffers-Keeps stable taken _ k ring) e

    -- The free list is a circle of the buffers `ys`, two or more, linked both ways, in some order, and the other
    -- tasks and the drivers leave it one whenever they find it one. Then, after any number of calls of `getblk`, `bread`, `breada`, `bread_page`, `get_hash_table`, `brelse`, `sync_dev`, `sys_sync` and `invalidate_buffers` that return, in any order, between which other tasks and drivers run,
    -- it is again one, of the same buffers.
    pub Calls-IsFreeOf : {k k' : Kernel} → Calls k k' → IsFreeOf ys k → IsFreeOf ys k'
    Calls-IsFreeOf no_call ring = ring
    Calls-IsFreeOf (next_call call more) ring = Calls-IsFreeOf more (Call-IsFreeOf call ring)
