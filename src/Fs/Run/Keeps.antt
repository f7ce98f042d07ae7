-- ===== src/Fs/Run/Keeps.antt =====
-- What holds of the buffers whatever the other tasks and the drivers do.
use neantis.Prelude.{ℕ, zero, suc, ◌+◌, ◌≡◌, Bool, true, false, update}
use neantis.Mm.{Memory}
use neantis.Fs.State.{Ptr, BufferHead, MInode, Kernel}
use neantis.Fs.Run.{Outcome, Proc, Machine, wait_while, for_range, when}
use neantis.Fs.Run.Gives.{Gives, returns, stops, Gives-then, Gives-elim}

-- If the command returns, `I` holds then.
abbrev pub Keeps : (Kernel → Type 0) → {A : Type 0} → Outcome A → Type 0
Keeps I o = Gives (λ _. I) o

-- The other tasks and the drivers keep `I`, and it depends on nothing that the waits and the writes
-- of the cache and of the inode table change: of a buffer head at most on the links of the free list,
-- of an inode at most on the count, and not on the memory.
pub record IsStable ⦃m : Machine⦄ (I : Kernel → Type 0) : Type 0 where
  pub sleeps : (k : Kernel) → I k → I (m.sleep_on k)
  pub drives : (rw : ℕ) (b : Ptr) (k : Kernel) → I k → I (m.ll_rw_block rw b k)
  pub heads :
      (p : Ptr) (h : BufferHead) (k : Kernel)
      → h.b_next_free ≡ (k.buffer p).b_next_free
      → h.b_prev_free ≡ (k.buffer p).b_prev_free
      → I k
      → I (record k { buffer = update k.buffer p h })
  pub inodes :
      (t : Ptr → MInode) (k : Kernel)
      → ((i : Ptr) → (t i).i_count ≡ (k.inode i).i_count)
      → I k
      → I (record k { inode = t })
  pub memory : (p : Memory) (k : Kernel) → I k → I (record k { memory = p })

module _ ⦃m : Machine⦄ {I : Kernel → Type 0} where
  pub wait_while-Keeps :
      ((k : Kernel) → I k → I (m.sleep_on k))
      → (n : ℕ) (busy : Kernel → Bool) (k : Kernel) → I k
      → Keeps I (wait_while n busy k)
  unfolding wait_while
  wait_while-Keeps sleeps zero busy k holds = stops
  wait_while-Keeps sleeps (suc n) busy k holds =
      Gives-elim (busy k) (λ _. wait_while-Keeps sleeps n busy _ (sleeps k holds))
        (λ _. returns holds)

  pub for_range-Keeps :
      (n i : ℕ) (body : ℕ → Proc) (k : Kernel)
      → ((j : ℕ) (k : Kernel) → I k → Keeps I (body j k))
      → I k
      → Keeps I (for_range n i body k)
  unfolding for_range
  for_range-Keeps zero i body k all holds = returns holds
  for_range-Keeps (suc n) i body k all holds =
      Gives-then _ (all i k holds) λ _ k₁ holds₁. for_range-Keeps n (i + 1) body k₁ all holds₁

  pub when-Keeps :
      (b : Bool) (p : Proc) (k : Kernel) → (I k → Keeps I (p k)) → I k → Keeps I (when b p k)
  when-Keeps true p k kept holds = kept holds
  when-Keeps false p k kept holds = returns holds
