-- ===== src/Fs/Cache/Hash.antt =====
-- fs/buffer.c: what the hash queues give for a block, and how a buffer is taken and let go.
use neantis.Prelude.{
  ℕ, zero, suc, ◌+◌, ◌-◌, ◌^◌, ◌<◌, ◌≡◌, refl, ◌≢◌, ◌⊎◌, inl, inr, ◌&&◌, arith, ◌==◌, if◌then◌else◌,
  update, ==_ne,
}
use neantis.Prelude.Words.{u8}
use neantis.Fs.State.{Ptr, null, Kernel}
use neantis.Fs.Run.{ok, panic, ◌>>◌, Machine, set_buffer, wait_while-ok}
use neantis.Fs.Run.Gives.{
  Gives, returns, stops, Gives-bind, Gives-elim, Gives-then, Gives-ok, Gives-mono, wait_while-Gives,
}
use neantis.Fs.Cache.{is_locked, find_buffer, wait_on_buffer, get_hash_at, get_hash_table, brelse}

-- The buffer is that of the block.
abbrev pub IsOf : ℕ → ℕ → Ptr → Kernel → Type 0
IsOf dev block b k = (b ≢ null) × ((k.buffer b).b_dev ≡ dev) × ((k.buffer b).b_blocknr ≡ block)

abbrev pub IsHit : ℕ → ℕ → Ptr → Kernel → Type 0
IsHit dev block b k = (b ≡ null) ⊎ (IsOf dev block b k × ((k.buffer b).b_lock ≡ 0))

module _ ⦃m : Machine⦄ where
  wait_on_buffer-Gives :
      (b : Ptr) (k : Kernel) → Gives (λ _ k'. (k'.buffer b).b_lock ≡ 0) (wait_on_buffer b k)
  unfolding wait_on_buffer
  wait_on_buffer-Gives b k =
      Gives-mono (wait_while-Gives m.rounds (is_locked b) k) λ _ k' free. ground arith

  get_hash_at-IsHit :
      (f dev block : ℕ) (k : Kernel) → Gives (IsHit dev block) (get_hash_at f dev block k)
  unfolding get_hash_at
  get_hash_at-IsHit zero dev block k = stops
  get_hash_at-IsHit (suc f) dev block k = Gives-bind (find_buffer dev block k) λ b k₁.
      Gives-elim (b == null) (λ _. returns (inl refl))
        λ some_buffer.
          Gives-then
            ((set_buffer b (λ r. record r { b_count = u8 (r.b_count + 1) }) >> wait_on_buffer b) k₁)
            (wait_on_buffer-Gives b _)
            λ _ k₂ free.
              Gives-elim ((k₂.buffer b).b_dev == dev && (k₂.buffer b).b_blocknr == block)
                (λ same. returns (inr ((ground arith, ground arith, ground arith), free)))
                (λ _. get_hash_at-IsHit f dev block _)

  pub get_hash_table-IsHit :
      (dev block : ℕ) (k : Kernel) → Gives (IsHit dev block) (get_hash_table dev block k)
  unfolding get_hash_table
  get_hash_table-IsHit = get_hash_at-IsHit m.rounds

  -- Whatever the other tasks do while it waits, a buffer that `get_hash_table` returns is that of
  -- the block, and unlocked, at the moment when it returns.
  pub get_hash_table-IsOf :
      (dev block : ℕ) (k k' : Kernel) (b : Ptr)
      → get_hash_table dev block k ≡ ok b k'
      → b ≢ null
      → IsOf dev block b k' × ((k'.buffer b).b_lock ≡ 0)
  get_hash_table-IsOf dev block k k' b e found =
      either (Gives-ok (get_hash_table-IsHit dev block k) e)
    where
      either : IsHit dev block b k' → IsOf dev block b k' × ((k'.buffer b).b_lock ≡ 0)
      either (inl p) = absurd (found p)
      either (inr p) = p

  -- `brelse` of an unlocked buffer takes its count down by one; at a count of 0 the kernel stops.
  brelse_lem :
      (b : Ptr) (k : Kernel)
      → 0 < m.rounds
      → b ≢ null
      → (k.buffer b).b_lock ≡ 0
      → (k.buffer b).b_count < 2 ^ 8
      → let count = (k.buffer b).b_count in
        let after = λ (c : ℕ). record k {
          buffer = update k.buffer b (record (k.buffer b) { b_count = c });
        } in
        brelse b k ≡ (if count == 0 then panic (after 255) else ok tt (after (count - 1)))
  unfolding brelse wait_on_buffer
  brelse_lem b k some_rounds real free small =
      rw (==_ne b null real, wait_while-ok m.rounds (is_locked b) k some_rounds (ground arith))
        (ground arith)
