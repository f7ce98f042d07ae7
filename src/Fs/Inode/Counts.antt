-- ===== src/Fs/Inode/Counts.antt =====
-- fs/inode.c: what `iput` does to the count of references.
use neantis.Prelude.{
  ℕ, zero, suc, ◌-◌, ◌^◌, ◌<◌, ◌≡◌, ◌≢◌, ◌⊎◌, inl, inr, ap, ◌∙◌, true, false, arith, ltb, ◌==◌,
  update, update_self, Bool-cases, ==_ne,
}
use neantis.Prelude.Words.{sub16}
use neantis.Fs.State.{Ptr, null, MInode, Kernel}
use neantis.Fs.Run.{ok, panic, Machine}
use neantis.Fs.Itable.Waits.{wait_on_inode-ok}
use neantis.Fs.Truncate.{s_isblk}
use neantis.Fs.Inode.{drop_count, iput, iput_repeat}

module _ ⦃m : Machine⦄ where
  -- Why `iput` has nothing to do for the inode but to count: it is a pipe that others hold too; it is
  -- no pipe and belongs to no device; or it is not that of a block device, and others hold it or it
  -- has links and what is on the disk is up to date.
  abbrev pub OnlyCounts : MInode → Type 0
  OnlyCounts r =
      ((r.i_pipe ≢ 0) × (1 < r.i_count))
      ⊎ (((r.i_pipe ≡ 0) × (r.i_dev ≡ 0))
          ⊎ ((r.i_pipe ≡ 0)
              × (r.i_dev ≢ 0)
              × (s_isblk r.i_mode ≡ false)
              × ((1 < r.i_count) ⊎ ((r.i_nlinks ≢ 0) × (r.i_dirt ≡ 0)))))

  ltb-true : (a b : ℕ) → a < b → ltb a b ≡ true
  ltb-true a b h = ground arith

  iput_repeat-drop :
      (f : ℕ) (i : Ptr) (k : Kernel)
      → 0 < f
      → (1 < (k.inode i).i_count) ⊎ (((k.inode i).i_nlinks ≢ 0) × ((k.inode i).i_dirt ≡ 0))
      → iput_repeat f i k ≡ drop_count i k
  unfolding iput_repeat
  iput_repeat-drop zero i k h e = absurd (omega arith)
  iput_repeat-drop (suc f) i k h (inl many) = rw (ltb-true 1 (k.inode i).i_count many, iput_repeat)
  iput_repeat-drop (suc f) i k h (inr (links, clean)) =
      elim (Bool-cases (ltb 1 (k.inode i).i_count)) [
        | inl e ↦ rw (e, iput_repeat)
        | inr e ↦ rw (e, ==_ne (k.inode i).i_nlinks 0 links, ap (λ d. d == 0) clean, iput_repeat)
      ]

  drop_count_lem :
      (i : Ptr) (k : Kernel)
      → 0 < (k.inode i).i_count
      → (k.inode i).i_count < 2 ^ 16
      → drop_count i k
        ≡ ok tt (record k {
          inode = update k.inode i (record (k.inode i) { i_count = (k.inode i).i_count - 1 });
        })
  drop_count_lem i k used small =
      ap (λ c. ok tt (record k { inode = update k.inode i (record (k.inode i) { i_count = c }) }))
        (omega arith)

  -- `iput` of an unlocked inode that is in use takes its count down by one and changes nothing
  -- else in the cases of `OnlyCounts`.
  pub iput-drop_count :
      (i : Ptr) (k : Kernel)
      → 0 < m.rounds
      → i ≢ null
      → (k.inode i).i_lock ≡ 0
      → 0 < (k.inode i).i_count
      → (k.inode i).i_count < 2 ^ 16
      → OnlyCounts (k.inode i)
      → iput i k
        ≡ ok tt (record k {
          inode = update k.inode i (record (k.inode i) { i_count = (k.inode i).i_count - 1 });
        })
  unfolding iput
  iput-drop_count i k some_rounds real free used small (inl (pipe, many)) =
      rw
        (
          ==_ne i null real,
          wait_on_inode-ok i k some_rounds free,
          ==_ne (k.inode i).i_count 0 (omega arith),
          ==_ne (k.inode i).i_pipe 0 pipe,
        )
        (rw
          (ap (λ r. r.i_count == 0)
              (update_self k.inode i (record (k.inode i) { i_count = sub16 (k.inode i).i_count 1 }))
            ∙ ==_ne (sub16 (k.inode i).i_count 1) 0 (omega arith))
          (drop_count_lem i k used small))
  iput-drop_count i k some_rounds real free used small (inr (inl (pipe, dev))) =
      rw
        (
          ==_ne i null real,
          wait_on_inode-ok i k some_rounds free,
          ==_ne (k.inode i).i_count 0 (omega arith),
          ap (λ p. p == 0) pipe,
          ap (λ p. p == 0) dev,
        )
        (drop_count_lem i k used small)
  iput-drop_count i k some_rounds real free used small (inr (inr (pipe, dev, block, why))) =
      rw
        (
          ==_ne i null real,
          wait_on_inode-ok i k some_rounds free,
          ==_ne (k.inode i).i_count 0 (omega arith),
          ap (λ p. p == 0) pipe,
          ==_ne (k.inode i).i_dev 0 dev,
          block,
        )
        (iput_repeat-drop m.rounds i k some_rounds why ∙ drop_count_lem i k used small)

  -- `iput` of an unlocked inode that nobody holds stops the kernel, and changes nothing.
  iput-unused :
      (i : Ptr) (k : Kernel)
      → 0 < m.rounds
      → i ≢ null
      → (k.inode i).i_lock ≡ 0
      → (k.inode i).i_count ≡ 0
      → iput i k ≡ panic k
  unfolding iput
  iput-unused i k some_rounds real free unused =
      rw (==_ne i null real, wait_on_inode-ok i k some_rounds free) (ground arith)
