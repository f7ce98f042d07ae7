-- ===== src/Fs/Pipe/Calls.antt =====
-- fs/pipe.c: whole calls of `read_pipe` and `write_pipe` that need not wait.
use neantis.Prelude.{
  ℕ, zero, suc, ◌+◌, ◌-◌, ◌^◌, ◌≤◌, ◌<◌, ◌≡◌, refl, ◌≢◌, sym, ap, ap₂, ◌∙◌, false, leb, ◌++◌, arith,
  ==_ne,
}
use neantis.Prelude.Slice.{slice, slice-same, slice-append}
use neantis.Mm.{page_size}
use neantis.Fs.State.{Ptr, MInode, Kernel}
use neantis.Fs.Run.{ok, and_then, Machine}
use neantis.Fs.Errno.{pos}
use neantis.Fs.Pipe.{
  pipe_size, pipe_room, chars_of, read_round, write_round, pipe_wait, read_loop, read_pipe,
  write_loop, write_pipe,
}
use neantis.Fs.Pipe.Rounds.{
  IsPipe, contents, contents-read_round, contents-write_round, read_round-IsPipe,
  write_round-IsPipe, read_round-size, write_round-size, read_round-below, write_round-fs,
}
use mathlib.Core.List.{append_assoc, append-nil}

pub leb-false : (a b : ℕ) → b < a → leb a b ≡ false
leb-false a b h = ground arith

module _ ⦃m : Machine⦄ where
  pipe_wait-ok :
      (f : ℕ) (size : MInode → ℕ) (i : Ptr) (k : Kernel)
      → 0 < f
      → size (k.inode i) ≢ 0
      → pipe_wait f size i k ≡ ok (size (k.inode i)) k
  unfolding pipe_wait
  pipe_wait-ok zero size i k h some = absurd (omega arith)
  pipe_wait-ok (suc f) size i k h some = rw (==_ne (size (k.inode i)) 0 some, pipe_wait)

  -- A round that finds bytes goes on with the rest of the call.
  read_loop-round :
      (f i buf n read : ℕ) (k : Kernel)
      → 0 < m.rounds
      → IsPipe (k.inode i)
      → pipe_size (k.inode i) ≢ 0
      → read + suc n < 2 ^ 31
      → let chars = chars_of ((k.inode i).i_zone 1) (suc n) (pipe_size (k.inode i)) in
        read_loop (suc f) i buf (suc n) read k
        ≡ read_loop f i (buf + chars) (suc n - chars) (read + chars) (read_round i buf chars k)
  unfolding read_loop
  read_loop-round f i buf n read k some_rounds valid some small =
      let chars = chars_of ((k.inode i).i_zone 1) (suc n) (pipe_size (k.inode i)) in
      rw
        (
          ==_ne (suc n) 0 (omega arith),
          read_loop,
          pipe_wait-ok m.rounds pipe_size i k some_rounds some,
          and_then,
          ==_ne (pipe_size (k.inode i)) 0 some,
        )
        (ap₂ (λ c t. read_loop f i (buf + chars) c t (read_round i buf chars k)) {y = suc n - chars}
          {v = read + chars} (omega (arith, valid.tail_in)) (omega (arith, valid.tail_in)))

  -- With enough bytes in the pipe, the loop takes as many as are asked for and leaves the rest.
  read_loop_lem :
      (f i buf count read : ℕ) (k : Kernel)
      → 0 < m.rounds
      → count < f
      → IsPipe (k.inode i)
      → count ≤ pipe_size (k.inode i)
      → read + count < 2 ^ 31
      → (k' : Kernel) × (read_loop f i buf count read k ≡ ok (pos (read + count)) k')
        × (contents i k ≡ slice k'.fs buf count ++ contents i k')
        × ((x : ℕ) → x < buf → k'.fs x ≡ k.fs x)
        × IsPipe (k'.inode i)
  read_loop_lem zero i buf count read k some_rounds enough valid held small = absurd (omega arith)
  read_loop_lem (suc f) i buf zero read k some_rounds enough valid held small =
      (k, unfold read_loop in ap (λ n. ok (pos n) k) (omega arith), refl, (λ x below. refl), valid)
  read_loop_lem (suc f) i buf (suc n) read k some_rounds enough valid held small =
      let size = pipe_size (k.inode i) in
      let tail = (k.inode i).i_zone 1 in
      let chars = chars_of tail (suc n) size in
      let k₁ = read_round i buf chars k in
      let in_page = valid.tail_in in
      let fits : tail + chars ≤ page_size = omega arith in
      let (k', e, c, same, valid') =
        read_loop_lem f i (buf + chars) (suc n - chars) (read + chars) k₁ some_rounds (omega arith)
          (read_round-IsPipe i buf chars k valid)
          (omega (arith, read_round-size i buf chars k valid (omega arith))) (omega arith) in
      let kept : slice k₁.fs buf chars ≡ slice k'.fs buf chars =
        slice-same k₁.fs k'.fs buf buf chars (λ j lt. sym (same (buf + j) (omega arith))) in
      (
        k',
        read_loop-round f i buf n read k some_rounds valid (omega arith) small
            ∙ e
            ∙ ap (λ t. ok (pos t) k') (omega arith),
        contents-read_round i buf chars k valid (omega arith) fits
            ∙ ap₂ ◌++◌ kept c
            ∙ sym (append_assoc (slice k'.fs buf chars) _ _)
            ∙ ap (λ l. l ++ contents i k')
                (sym (slice-append k'.fs buf chars (suc n - chars))
                  ∙ ap (slice k'.fs buf) {y = suc n} (omega arith)),
        (λ x below. same x (omega arith) ∙ read_round-below i buf chars k valid x below),
        valid',
      )

  -- `read_pipe` of bytes that the pipe already holds returns at once with all that was asked for:
  -- the oldest bytes, in their order, at the place that the caller named. The pipe holds the rest.
  pub read_pipe-contents :
      (i buf count : ℕ) (k : Kernel)
      → count < m.rounds
      → IsPipe (k.inode i)
      → count ≤ pipe_size (k.inode i)
      → (k' : Kernel) × (read_pipe i buf count k ≡ ok (pos count) k')
        × (contents i k ≡ slice k'.fs buf count ++ contents i k')
        × IsPipe (k'.inode i)
  unfolding read_pipe
  read_pipe-contents i buf count k enough valid held =
      let (k', e, c, _, v) =
        read_loop_lem m.rounds i buf count 0 k (omega arith) enough valid held (omega arith) in
      (
        k',
        rw (leb-false (2 ^ 31) count (omega arith)) (e ∙ ap (λ n. ok (pos n) k') (omega arith)),
        c,
        v,
      )

  write_loop-round :
      (f i buf n written : ℕ) (k : Kernel)
      → 0 < m.rounds
      → IsPipe (k.inode i)
      → pipe_room (k.inode i) ≢ 0
      → written + suc n < 2 ^ 31
      → let chars = chars_of ((k.inode i).i_zone 0) (suc n) (pipe_room (k.inode i)) in
        write_loop (suc f) i buf (suc n) written k
        ≡ write_loop f i (buf + chars) (suc n - chars) (written + chars) (write_round i buf chars k)
  unfolding write_loop
  write_loop-round f i buf n written k some_rounds valid some small =
      let chars = chars_of ((k.inode i).i_zone 0) (suc n) (pipe_room (k.inode i)) in
      rw
        (
          ==_ne (suc n) 0 (omega arith),
          write_loop,
          pipe_wait-ok m.rounds pipe_room i k some_rounds some,
          and_then,
          ==_ne (pipe_room (k.inode i)) 0 some,
        )
        (ap₂ (λ c t. write_loop f i (buf + chars) c t (write_round i buf chars k))
          {y = suc n - chars} {v = written + chars} (omega (arith, valid.head_in))
          (omega (arith, valid.head_in)))

  write_loop_lem :
      (f i buf count written : ℕ) (k : Kernel)
      → 0 < m.rounds
      → count < f
      → IsPipe (k.inode i)
      → count ≤ pipe_room (k.inode i)
      → written + count < 2 ^ 31
      → (k' : Kernel) × (write_loop f i buf count written k ≡ ok (pos (written + count)) k')
        × (contents i k' ≡ contents i k ++ slice k.fs buf count)
        × IsPipe (k'.inode i)
  write_loop_lem zero i buf count written k some_rounds enough valid room small =
      absurd (omega arith)
  write_loop_lem (suc f) i buf zero written k some_rounds enough valid room small = (
    k,
    unfold write_loop in ap (λ n. ok (pos n) k) (omega arith),
    sym (append-nil (contents i k)),
    valid,
  )
  write_loop_lem (suc f) i buf (suc n) written k some_rounds enough valid room small =
      let size = pipe_room (k.inode i) in
      let head = (k.inode i).i_zone 0 in
      let chars = chars_of head (suc n) size in
      let k₁ = write_round i buf chars k in
      let in_page = valid.head_in in
      let fits : head + chars ≤ page_size = omega arith in
      let (k', e, c, valid') =
        write_loop_lem f i (buf + chars) (suc n - chars) (written + chars) k₁ some_rounds
          (omega arith) (write_round-IsPipe i buf chars k valid)
          (omega (arith, write_round-size i buf chars k valid (omega arith))) (omega arith) in
      (
        k',
        write_loop-round f i buf n written k some_rounds valid (omega arith) small
            ∙ e
            ∙ ap (λ t. ok (pos t) k') (omega arith),
        c
            ∙ ap₂ (λ l (fs : ℕ → ℕ). l ++ slice fs (buf + chars) (suc n - chars))
                (contents-write_round i buf chars k valid (omega arith) fits)
                (write_round-fs i buf chars k valid)
            ∙ append_assoc (contents i k) _ _
            ∙ ap (λ l. contents i k ++ l)
                (sym (slice-append k.fs buf chars (suc n - chars))
                  ∙ ap (slice k.fs buf) {y = suc n} (omega arith)),
        valid',
      )

  -- `write_pipe` of bytes that the pipe has room for returns at once with all of them written: the
  -- pipe holds what it held and behind it the bytes of the caller, in their order.
  pub contents-write_pipe :
      (i buf count : ℕ) (k : Kernel)
      → count < m.rounds
      → IsPipe (k.inode i)
      → pipe_size (k.inode i) + count < page_size
      → (k' : Kernel) × (write_pipe i buf count k ≡ ok (pos count) k')
        × (contents i k' ≡ contents i k ++ slice k.fs buf count)
        × IsPipe (k'.inode i)
  unfolding write_pipe
  contents-write_pipe i buf count k enough valid room =
      let (k', e, c, v) =
        write_loop_lem m.rounds i buf count 0 k (omega arith) enough valid (omega arith)
          (omega arith) in
      (
        k',
        rw (leb-false (2 ^ 31) count (omega arith)) (e ∙ ap (λ n. ok (pos n) k') (omega arith)),
        c,
        v,
      )
