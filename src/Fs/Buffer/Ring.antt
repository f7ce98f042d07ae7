-- ===== src/Fs/Buffer/Ring.antt =====
-- fs/buffer.c: the free list that `buffer_init` leaves.
use neantis.Prelude.{
  ℕ, zero, suc, ◌+◌, ◌-◌, ◌*◌, ◌≤◌, ◌<◌, ◌≡◌, refl, sym, ◌∙◌, arith, true, leb, ltb, ◌&&◌, subst,
  ◌==◌, if◌then◌else◌, update, update_self, update-ne, Bool-cases, inl, inr,
}
use neantis.Fs.State.{Ptr, null, slot, nr_hash, block_size, BufferHead, Kernel}
use neantis.Fs.Run.{ok, Machine}
use neantis.Fs.Buffer.Init.{
  head_size, fresh_head, skip_hole, init_loop, clear_hash, first_block, buffer_init,
}

-- What the loop leaves in the buffer head of entry `j`.
record IsFresh (r : BufferHead) (j : ℕ) : Type 0 where
  unused : r.b_count ≡ 0
  unlocked : r.b_lock ≡ 0
  clean : r.b_dirt ≡ 0
  next : r.b_next_free ≡ slot (j + 1)
  prev : r.b_prev_free ≡ j

-- What the loop has done when it ends with `n` buffers.
record Made (start b i n : ℕ) (k k' : Kernel) : Type 0 where
  begun : leb (start + head_size * (i + 1)) (b - block_size) ≡ true → i < n
  more : i ≤ n
  counted : k'.nr_buffers ≡ k.nr_buffers + (n - i)
  kept : (j : ℕ) → j < i → k'.buffer (slot j) ≡ k.buffer (slot j)
  made : (j : ℕ) → i ≤ j → j < n → IsFresh (k'.buffer (slot j)) j

init_loop-Made :
    (f start i b : ℕ) (k : Kernel)
    → b < block_size * f
    → (n : ℕ) × (k' : Kernel) × (init_loop f start i b k ≡ ok n k') × Made start b i n k k'
unfolding init_loop
init_loop-Made zero start i b k enough = absurd (omega arith)
init_loop-Made (suc f) start i b k enough =
    elim (Bool-cases (leb (start + head_size * (i + 1)) (b - block_size))) [
      | inr full ↦ (
        i,
        k,
        rw (full, init_loop) refl,
        record {
          begun = λ room. absurd (ground (arith, room, full));
          more = omega arith;
          counted = omega arith;
          kept = λ j lt. refl;
          made = λ j le lt. absurd (omega arith);
        },
      )
      | inl room ↦
          let r = fresh_head i (k.buffer (slot i)) in
          let k₁ : Kernel = record k {
            buffer = update k.buffer (slot i) r;
            nr_buffers = k.nr_buffers + 1;
          } in
          let (n, k', e, done) =
            init_loop-Made f start (i + 1) (skip_hole (b - block_size)) k₁ (ground (arith, room)) in
          let at_i : k'.buffer (slot i) ≡ r =
            done.kept i (omega arith) ∙ update_self k.buffer (slot i) r in
          let first : IsFresh (k'.buffer (slot i)) i =
            subst (λ r. IsFresh r i) (sym at_i)
              (record {
                unused = refl;
                unlocked = refl;
                clean = refl;
                next = omega arith;
                prev = omega arith;
              }) in
          (
            n,
            k',
            rw (room, init_loop) e,
            record {
              begun = λ room. omega (arith, done.more);
              more = omega (arith, done.more);
              counted = omega (arith, done.counted, done.more);
              kept = λ j lt.
                  done.kept j (omega arith) ∙ update-ne k.buffer (slot i) (slot j) r (omega arith);
              made = λ j le lt. elim (Bool-cases (i == j)) [
                | inl same ↦
                    subst (λ j. IsFresh (k'.buffer (slot j)) j) (ground (arith, same)) first
                | inr other ↦ done.made j (ground (arith, other)) lt
              ];
            },
          )
    ]

clear_hash_lem :
    (n i : ℕ) (table : ℕ → Ptr) (h : ℕ)
    → clear_hash n i table h ≡ (if leb i h && ltb h (i + n) then null else table h)
unfolding clear_hash
clear_hash_lem zero i table h = ground arith
clear_hash_lem (suc n) i table h = ground (arith, clear_hash_lem n (i + 1) (update table i null) h)

clear_hash-null : (table : ℕ → Ptr) (h : ℕ) → h < nr_hash → clear_hash nr_hash 0 table h ≡ null
clear_hash-null table h lt = clear_hash_lem nr_hash 0 table h ∙ ground arith

-- The two ends of the list joined, and what a buffer head `x` then has.
module _ (heads : Ptr → BufferHead) (a h : Ptr) where
  abbrev joined : Ptr → BufferHead
  joined =
      let b₁ = update heads a (record (heads a) { b_prev_free = h }) in
      update b₁ h (record (b₁ h) { b_next_free = a })

  joined-next : (x : Ptr) → (joined x).b_next_free ≡ (if h == x then a else (heads x).b_next_free)
  joined-next x = ground arith

  joined-prev : (x : Ptr) → (joined x).b_prev_free ≡ (if a == x then h else (heads x).b_prev_free)
  joined-prev x = ground arith

  joined-idle :
      (x : Ptr) → ((joined x).b_count ≡ (heads x).b_count) × ((joined x).b_lock ≡ (heads x).b_lock)
  joined-idle x = (ground arith, ground arith)

-- The free list of `n` buffers, in the order of the table and round its end, and no hash queue.
pub record IsRing (n : ℕ) (k : Kernel) : Type 0 where
  pub start : k.free_list ≡ slot 0
  pub next :
      (j : ℕ)
      → j < n
      → (k.buffer (slot j)).b_next_free ≡ (if j + 1 == n then slot 0 else slot (j + 1))
  pub prev :
      (j : ℕ) → j < n → (k.buffer (slot j)).b_prev_free ≡ (if j == 0 then slot (n - 1) else j)
  pub idle : (j : ℕ) → j < n → ((k.buffer (slot j)).b_count ≡ 0) × ((k.buffer (slot j)).b_lock ≡ 0)
  pub unhashed : (h : ℕ) → h < nr_hash → k.hash_table h ≡ null

-- With room for one buffer, `buffer_init` ends, having counted its buffers: they are the free list,
-- a ring in the order of the table, none of them is in use or locked, and every hash queue is empty.
pub buffer_init-IsRing :
    ⦃m : Machine⦄ (first end : ℕ) (k : Kernel)
    → first + head_size + block_size ≤ first_block end
    → first_block end < block_size * m.rounds
    → (n : ℕ) × (k' : Kernel) × (buffer_init first end k ≡ ok tt k')
      × (0 < n)
      × (k'.nr_buffers ≡ k.nr_buffers + n)
      × IsRing n k'
unfolding buffer_init
buffer_init-IsRing ⦃m⦄ first end k room enough =
    let (n, k₁, e, done) = init_loop-Made m.rounds first 0 (first_block end) k enough in
    let h = slot n - 1 in
    let some : 0 < n = done.begun (ground (arith, room)) in
    (
      n,
      record k₁ {
        buffer = joined k₁.buffer (slot 0) h;
        free_list = slot 0;
        hash_table = clear_hash nr_hash 0 k₁.hash_table;
      },
      rw e refl,
      some,
      omega (arith, done.counted),
      record {
        start = refl;
        next = λ j lt.
            joined-next k₁.buffer (slot 0) h (slot j)
            ∙ ground (arith, (done.made j (omega arith) lt).next, some, lt);
        prev = λ j lt.
            joined-prev k₁.buffer (slot 0) h (slot j)
            ∙ ground (arith, (done.made j (omega arith) lt).prev, some, lt);
        idle = λ j lt.
            let (count, lock) = joined-idle k₁.buffer (slot 0) h (slot j) in
            let made = done.made j (omega arith) lt in (count ∙ made.unused, lock ∙ made.unlocked);
        unhashed = λ x lt. clear_hash-null k₁.hash_table x lt;
      },
    )
