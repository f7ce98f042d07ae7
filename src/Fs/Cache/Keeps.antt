-- ===== src/Fs/Cache/Keeps.antt =====
-- fs/buffer.c, fs/super.c: the waits and the look-ups of the buffer cache keep what is stable.
use neantis.Prelude.{ℕ, zero, suc, ◌-◌, refl, ◌==◌, ◌&&◌}
use neantis.Fs.State.{Ptr, null, nr_super, Kernel}
use neantis.Fs.Run.{Machine}
use neantis.Fs.Run.Gives.{returns, panics, stops, Gives-then, Gives-elim, Gives-branch}
use neantis.Fs.Run.Keeps.{Keeps, IsStable, wait_while-Keeps}
use neantis.Fs.Super.{super_scan, get_super, wait_on_super}
use neantis.Fs.Cache.{
  find_from, find_buffer, wait_on_buffer, get_hash_at, get_hash_table, brelse, is_locked,
}

module _ {I : Kernel → Type 0} where
  find_from-Keeps :
      (f dev block : ℕ) (b : Ptr) (k : Kernel) → I k → Keeps I (find_from f dev block b k)
  unfolding find_from
  find_from-Keeps zero dev block b k holds = stops
  find_from-Keeps (suc f) dev block b k holds =
      let rest = find_from-Keeps f dev block (k.buffer b).b_next k holds in
      Gives-elim (b == null) (λ _. returns holds)
        λ _.
          Gives-elim ((k.buffer b).b_dev == dev && (k.buffer b).b_blocknr == block)
            (λ _. returns holds) λ _. rest

module _ ⦃m : Machine⦄ {I : Kernel → Type 0} (stable : IsStable I) where
  pub find_buffer-Keeps : (dev block : ℕ) (k : Kernel) → I k → Keeps I (find_buffer dev block k)
  unfolding find_buffer
  find_buffer-Keeps dev block k holds = find_from-Keeps m.rounds dev block _ k holds

  pub wait_on_buffer-Keeps : (b : Ptr) (k : Kernel) → I k → Keeps I (wait_on_buffer b k)
  unfolding wait_on_buffer
  wait_on_buffer-Keeps b k holds = wait_while-Keeps stable.sleeps m.rounds (is_locked b) k holds

  get_hash_at-Keeps : (f dev block : ℕ) (k : Kernel) → I k → Keeps I (get_hash_at f dev block k)
  unfolding get_hash_at
  get_hash_at-Keeps zero dev block k holds = stops
  get_hash_at-Keeps (suc f) dev block k holds =
      Gives-then _ (find_buffer-Keeps dev block k holds) λ b k₁ holds₁.
        Gives-elim (b == null) (λ _. returns holds₁)
          λ _.
            Gives-then _ (wait_on_buffer-Keeps b _ (stable.heads b _ k₁ refl refl holds₁))
              λ _ k₂ holds₂.
                Gives-elim ((k₂.buffer b).b_dev == dev && (k₂.buffer b).b_blocknr == block)
                  (λ _. returns holds₂)
                  λ _. get_hash_at-Keeps f dev block _ (stable.heads b _ k₂ refl refl holds₂)

  pub get_hash_table-Keeps :
      (dev block : ℕ) (k : Kernel) → I k → Keeps I (get_hash_table dev block k)
  unfolding get_hash_table
  get_hash_table-Keeps = get_hash_at-Keeps m.rounds

  pub brelse-Keeps : (b : Ptr) (k : Kernel) → I k → Keeps I (brelse b k)
  unfolding brelse
  brelse-Keeps b k holds =
      Gives-branch (b == null) _ _ k (λ _. returns holds)
        λ _. Gives-then _ (wait_on_buffer-Keeps b k holds) λ _ k₁ holds₁.
          let holds₂ = stable.heads b _ k₁ refl refl holds₁ in
          Gives-branch ((k₁.buffer b).b_count == 0) _ _ _ (λ _. panics) λ _. returns holds₂

  wait_on_super-Keeps : (s : Ptr) (k : Kernel) → I k → Keeps I (wait_on_super s k)
  unfolding wait_on_super
  wait_on_super-Keeps s k holds = wait_while-Keeps stable.sleeps m.rounds _ k holds

  super_scan-Keeps : (f dev n : ℕ) (k : Kernel) → I k → Keeps I (super_scan f dev n k)
  unfolding super_scan
  super_scan-Keeps f dev zero k holds = returns holds
  super_scan-Keeps zero dev (suc n) k holds = stops
  super_scan-Keeps (suc f) dev (suc n) k holds =
      let again = super_scan-Keeps f dev nr_super in
      let rest = super_scan-Keeps (suc f) dev n k holds in
      let s = nr_super - n in
      Gives-elim ((k.super_block s).s_dev == dev)
        (λ _. Gives-then (wait_on_super s k) (wait_on_super-Keeps s k holds) λ _ k₁ holds₁.
          Gives-elim ((k₁.super_block s).s_dev == dev) (λ _. returns holds₁) λ _. again k₁ holds₁)
        λ _. rest

  pub get_super-Keeps : (dev : ℕ) (k : Kernel) → I k → Keeps I (get_super dev k)
  unfolding get_super
  get_super-Keeps dev k holds =
      Gives-branch (dev == 0) _ _ k (λ _. returns holds)
        λ _. super_scan-Keeps m.rounds dev nr_super k holds
