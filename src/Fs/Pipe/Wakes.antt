-- ===== src/Fs/Pipe/Wakes.antt =====
-- fs/pipe.c: a reader that finds an empty pipe sleeps, and goes on when another task has written.
use neantis.Prelude.{ℕ, zero, suc, ◌^◌, ◌≤◌, ◌<◌, ◌≡◌, refl, ◌≢◌, ◌∙◌, ◌++◌, arith, ==_ne}
use neantis.Prelude.Slice.{slice}
use neantis.Fs.State.{Ptr, Kernel}
use neantis.Fs.Run.{ok, Machine}
use neantis.Fs.Errno.{pos}
use neantis.Fs.Pipe.{pipe_size, pipe_wait, read_loop, read_pipe}
use neantis.Fs.Pipe.Rounds.{IsPipe, contents}
use neantis.Fs.Pipe.Calls.{leb-false, read_pipe-contents}

module _ ⦃m : Machine⦄ where
  -- the state after `n` sleeps
  unfoldable pub asleep : ℕ → Kernel → Kernel
  asleep zero k = k
  asleep (suc n) k = asleep n (m.sleep_on k)

  -- The pipe is empty and still has its two ends.
  abbrev pub IsDry : Ptr → Kernel → Type 0
  IsDry i k = (pipe_size (k.inode i) ≡ 0) × ((k.inode i).i_count ≡ 2)

  pipe_wait-asleep :
      (f n : ℕ) (i : Ptr) (k : Kernel)
      → n < f
      → ((j : ℕ) → j < n → IsDry i (asleep j k))
      → pipe_size ((asleep n k).inode i) ≢ 0
      → pipe_wait f pipe_size i k ≡ ok (pipe_size ((asleep n k).inode i)) (asleep n k)
  unfolding pipe_wait asleep
  pipe_wait-asleep zero n i k enough dry some = absurd (omega arith)
  pipe_wait-asleep (suc f) zero i k enough dry some =
      rw (==_ne (pipe_size (k.inode i)) 0 some, pipe_wait)
  pipe_wait-asleep (suc f) (suc n) i k enough dry some =
      let (empty, ends) = dry 0 (omega arith) in
      rw (empty, pipe_wait, ends)
        (pipe_wait-asleep f n i (m.sleep_on k) (omega arith) (λ j lt. dry (suc j) (omega arith))
          some)

  read_loop-asleep :
      (f n i buf count : ℕ) (k : Kernel)
      → n < m.rounds
      → 0 < count
      → ((j : ℕ) → j < n → IsDry i (asleep j k))
      → pipe_size ((asleep n k).inode i) ≢ 0
      → read_loop f i buf count 0 k ≡ read_loop f i buf count 0 (asleep n k)
  unfolding read_loop
  read_loop-asleep zero n i buf count k enough more dry some = refl
  read_loop-asleep (suc f) n i buf count k enough more dry some =
      let again : pipe_wait m.rounds pipe_size i (asleep n k)
          ≡ ok (pipe_size ((asleep n k).inode i)) (asleep n k) =
        unfold asleep in
        pipe_wait-asleep m.rounds 0 i (asleep n k) (omega arith) (λ j lt. absurd (omega arith))
          some in
      rw
        (
          ==_ne count 0 (omega arith),
          read_loop,
          pipe_wait-asleep m.rounds n i k enough dry some,
          again,
        )
        refl

  -- `read_pipe` of an empty pipe ends: when, after some sleeps that its rounds allow, another task has
  -- written as many bytes as it asks for, it returns with the oldest of them, in their order, and the
  -- pipe holds the rest.
  pub read_pipe-wakes :
      (n i buf count : ℕ) (k : Kernel)
      → n < m.rounds
      → count < m.rounds
      → 0 < count
      → ((j : ℕ) → j < n → IsDry i (asleep j k))
      → IsPipe ((asleep n k).inode i)
      → count ≤ pipe_size ((asleep n k).inode i)
      → (k' : Kernel) × (read_pipe i buf count k ≡ ok (pos count) k')
        × (contents i (asleep n k) ≡ slice k'.fs buf count ++ contents i k')
        × IsPipe (k'.inode i)
  read_pipe-wakes n i buf count k enough loops more dry valid held =
      let (k', e, c, v) = read_pipe-contents i buf count (asleep n k) loops valid held in
      let same : read_pipe i buf count k ≡ read_pipe i buf count (asleep n k) =
        unfold read_pipe in
        rw (leb-false (2 ^ 31) count (omega arith))
          (read_loop-asleep m.rounds n i buf count k enough more dry (omega arith)) in
      (k', same ∙ e, c, v)
