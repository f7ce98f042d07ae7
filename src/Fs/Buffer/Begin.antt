-- ===== src/Fs/Buffer/Begin.antt =====
-- fs/buffer.c: the free list that `buffer_init` leaves, as the circle that `getblk` keeps.
use neantis.Prelude.{ℕ, zero, suc, ◌+◌, ◌*◌, ◌≤◌, ◌<◌, ◌≡◌, refl, arith, List, [], ◌∷◌}
use neantis.Prelude.Chains.{Avoids, IsDistinct, Chain, link, step, cycle}
use neantis.Fs.State.{Ptr, null, slot, nr_hash, block_size, Kernel}
use neantis.Fs.Run.{ok, Machine}
use neantis.Fs.Cache.FreeRing.{IsFreeRing}
use neantis.Fs.Buffer.Init.{head_size, first_block, buffer_init}
use neantis.Fs.Buffer.Ring.{IsRing, buffer_init-IsRing}

-- `n` entries of the table of buffers, from entry `i` on.
abbrev pub slots : ℕ → ℕ → List Ptr
slots i zero = []
slots i (suc n) = slot i ∷ slots (i + 1) n

slots-Avoids : (p i n : ℕ) → p ≤ i → Avoids p (slots i n)
slots-Avoids p i zero le = tt
slots-Avoids p i (suc n) le = (λ e. omega (arith, e), slots-Avoids p (i + 1) n (omega arith))

slots-IsDistinct : (i n : ℕ) → IsDistinct (slots i n)
slots-IsDistinct i zero = tt
slots-IsDistinct i (suc n) =
    (slots-Avoids (slot i) (i + 1) n (omega arith), slots-IsDistinct (i + 1) n)

module _ {n : ℕ} {k : Kernel} (ring : IsRing n k) where
  slots-Chain :
      (m i : ℕ)
      → i + suc m ≡ n
      → Chain
          (λ b. (k.buffer b).b_next_free)
          (λ b. (k.buffer b).b_prev_free)
          (slot i)
          (slots (i + 1) m)
          (slot 0)
  slots-Chain zero i e =
      link (ground (arith, ring.next i (omega arith))) (ground (arith, ring.prev 0 (omega arith)))
  slots-Chain (suc m) i e =
      step (ground (arith, ring.next i (omega arith)))
        (ground (arith, ring.prev (i + 1) (omega arith))) (slots-Chain m (i + 1) (omega arith))

  IsRing-IsFreeRing : (m : ℕ) → suc m ≡ n → IsFreeRing (slots 0 (suc m)) k
  IsRing-IsFreeRing m e = record {
    circle = cycle (slots-Chain m 0 (omega (arith, e))) (slots-IsDistinct 0 (suc m));
    start = ring.start;
    some = slots-Avoids null 0 (suc m) (omega arith);
  }

-- With room for one buffer, `buffer_init` ends, having counted its buffers: the free list is the circle of them,
-- linked both ways, in the order of the table; none of them is in use or locked, and every hash queue is empty.
pub buffer_init-IsFreeRing :
    ⦃m : Machine⦄ (first end : ℕ) (k : Kernel)
    → first + head_size + block_size ≤ first_block end
    → first_block end < block_size * m.rounds
    → (n : ℕ) × (k' : Kernel) × (buffer_init first end k ≡ ok tt k')
      × (0 < n)
      × (k'.nr_buffers ≡ k.nr_buffers + n)
      × IsFreeRing (slots 0 n) k'
      × ((j : ℕ) → j < n → ((k'.buffer (slot j)).b_count ≡ 0) × ((k'.buffer (slot j)).b_lock ≡ 0))
      × ((h : ℕ) → h < nr_hash → k'.hash_table h ≡ null)
buffer_init-IsFreeRing first end k room enough =
    let (n, k', e, some, counted, ring) = buffer_init-IsRing first end k room enough in
    (n, k', e, some, counted, whole n k' some ring, ring.idle, ring.unhashed)
  where
    whole : (n : ℕ) (k' : Kernel) → 0 < n → IsRing n k' → IsFreeRing (slots 0 n) k'
    whole zero k' some ring = absurd (omega arith)
    whole (suc n) k' some ring = IsRing-IsFreeRing ring n refl
