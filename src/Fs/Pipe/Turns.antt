-- ===== src/Fs/Pipe/Turns.antt =====
-- fs/pipe.c: readers and writers of one pipe in any order. What a task does while another one
-- sleeps in `read_pipe` or `write_pipe` comes in between the rounds of those.
use neantis.Prelude.{
  ℕ, zero, suc, ◌+◌, ◌%◌, ◌^◌, ◌≡◌, refl, sym, ap, subst, ◌∙◌, ◌⊎◌, inl, inr, false, leb, ◌==◌,
  List, ◌++◌, bit_or, arith,
}
use neantis.Prelude.Ring.{window-same}
use neantis.Prelude.Slice.{slice}
use neantis.Mm.{page_size}
use neantis.Fs.State.{Ptr, MInode, Kernel}
use neantis.Fs.Run.{ok, Machine}
use neantis.Fs.Run.Gives.{Gives, returns, stops, Gives-then, Gives-elim, Gives-branch, Gives-ok}
use neantis.Fs.Errno.{ℤ}
use neantis.Fs.Pipe.{
  pipe_size, pipe_room, chars_of, read_round, write_round, pipe_wait, read_loop, read_pipe,
  write_loop, write_pipe, sigpipe_bit,
}
use neantis.Fs.Pipe.Rounds.{
  IsPipe, contents, contents_of, contents-read_round, contents-write_round, read_round-IsPipe,
  write_round-IsPipe,
}
use mathlib.Core.List.{append_assoc}

-- The kernel, with all bytes that writers have put into the pipe and readers have got out of it.
pub record History : Type 0 where
  pub kernel : Kernel
  pub sent : List ℕ
  pub received : List ℕ

module _ (i : Ptr) where
  abbrev pub after_read : ℕ → ℕ → History → History
  after_read buf count h =
      let r = h.kernel.inode i in
      let chars = chars_of (r.i_zone 1) count (pipe_size r) in
      let k = read_round i buf chars h.kernel in
      record h { kernel = k; received = h.received ++ slice k.fs buf chars }

  abbrev pub after_write : ℕ → ℕ → History → History
  after_write buf count h =
      let r = h.kernel.inode i in
      let chars = chars_of (r.i_zone 0) count (pipe_room r) in
      record h {
        kernel = write_round i buf chars h.kernel;
        sent = h.sent ++ slice h.kernel.fs buf chars;
      }

  -- A round of some reader or writer, or whatever else leaves the inode and its page as they are.
  pub data Turn (h : History) : History → Type 0 where
    reads : (buf count : ℕ) → Turn h (after_read buf count h)
    writes : (buf count : ℕ) → Turn h (after_write buf count h)
    other :
        (k : Kernel)
        → k.inode i ≡ h.kernel.inode i
        → ((j : ℕ)
            → k.memory.phys ((h.kernel.inode i).i_size + j)
              ≡ h.kernel.memory.phys ((h.kernel.inode i).i_size + j))
        → Turn h (record h { kernel = k })

  pub data Turns (h : History) : History → Type 0 where
    here : Turns h h
    then_turn : {g l : History} → Turns h g → Turn g l → Turns h l

  -- What was sent is what was received and what is still in the pipe.
  pub record IsOrdered (h : History) : Type 0 where
    pub valid : IsPipe (h.kernel.inode i)
    pub order : h.sent ≡ h.received ++ contents i h.kernel

  -- The contents lie in the page.
  other_contents :
      (k l : Kernel)
      → k.inode i ≡ l.inode i
      → ((j : ℕ) → k.memory.phys ((l.inode i).i_size + j) ≡ l.memory.phys ((l.inode i).i_size + j))
      → contents i k ≡ contents i l
  other_contents k l same page =
      ap (λ r. contents_of r k.memory.phys) same
      ∙ window-same page_size (λ j. k.memory.phys ((l.inode i).i_size + j))
          (λ j. l.memory.phys ((l.inode i).i_size + j)) ((l.inode i).i_zone 1)
          (pipe_size (l.inode i)) λ j lt. page (((l.inode i).i_zone 1 + j) % page_size)

  Turn-IsOrdered : {h g : History} → Turn h g → IsOrdered h → IsOrdered g
  Turn-IsOrdered {h} (reads buf count) o =
      let r = h.kernel.inode i in
      let chars = chars_of (r.i_zone 1) count (pipe_size r) in
      let in_page = o.valid.tail_in in
      record {
        valid = read_round-IsPipe i buf chars h.kernel o.valid;
        order =
            o.order
            ∙ ap (λ l. h.received ++ l)
                (contents-read_round i buf chars h.kernel o.valid (omega arith) (omega arith))
            ∙ sym (append_assoc h.received _ _);
      }
  Turn-IsOrdered {h} (writes buf count) o =
      let r = h.kernel.inode i in
      let chars = chars_of (r.i_zone 0) count (pipe_room r) in
      let in_page = o.valid.head_in in
      record {
        valid = write_round-IsPipe i buf chars h.kernel o.valid;
        order =
            ap (λ l. l ++ slice h.kernel.fs buf chars) o.order
            ∙ append_assoc h.received _ _
            ∙ ap (λ l. h.received ++ l)
                (sym
                  (contents-write_round i buf chars h.kernel o.valid (omega arith) (omega arith)));
      }
  Turn-IsOrdered {h} (other k same page) o = record {
    valid = subst IsPipe (sym same) o.valid;
    order = o.order ∙ ap (λ l. h.received ++ l) (sym (other_contents k h.kernel same page));
  }

  pub Turns-IsOrdered : {h g : History} → Turns h g → IsOrdered h → IsOrdered g
  Turns-IsOrdered here o = o
  Turns-IsOrdered (then_turn ts t) o = Turn-IsOrdered t (Turns-IsOrdered ts o)

  Turns-append : {h g l : History} → Turns h g → Turns g l → Turns h l
  Turns-append ts here = ts
  Turns-append ts (then_turn us u) = then_turn (Turns-append ts us) u

  -- Some turns lead from `h` to the kernel `k`.
  abbrev pub Leads : History → Kernel → Type 0
  Leads h k = (g : History) × Turns h g × (g.kernel ≡ k)

  module _ ⦃m : Machine⦄ (sleeps : (h : History) → Leads h (m.sleep_on h.kernel)) where
    pipe_wait-Leads :
        (f : ℕ) (size : MInode → ℕ) (h : History) (k : Kernel)
        → Leads h k
        → Gives (λ n k'. Leads h k' × ((n ≡ 0) ⊎ (n ≡ size (k'.inode i)))) (pipe_wait f size i k)
    unfolding pipe_wait
    pipe_wait-Leads zero size h k lead = stops
    pipe_wait-Leads (suc f) size h k (g, ts, e) =
        Gives-elim (size (k.inode i) == 0)
          (λ _.
            Gives-elim ((k.inode i).i_count == 2)
              (λ _.
                let (l, us, e') = sleeps g in
                pipe_wait-Leads f size h (m.sleep_on k)
                  (l, Turns-append ts us, e' ∙ ap m.sleep_on e))
              (λ _. returns ((g, ts, e), inl refl)))
          (λ _. returns ((g, ts, e), inr refl))

    -- A round in the code is a turn.
    read-Leads :
        (buf count size : ℕ) (h : History) (k : Kernel)
        → Leads h k
        → size ≡ pipe_size (k.inode i)
        → Leads h (read_round i buf (chars_of ((k.inode i).i_zone 1) count size) k)
    read-Leads buf count size h k (g, ts, e) found = (
      after_read buf count g,
      then_turn ts (reads buf count),
      ap (λ k. read_round i buf (chars_of ((k.inode i).i_zone 1) count (pipe_size (k.inode i))) k) e
          ∙ ap (λ n. read_round i buf (chars_of ((k.inode i).i_zone 1) count n) k) (sym found),
    )

    write-Leads :
        (buf count size : ℕ) (h : History) (k : Kernel)
        → Leads h k
        → size ≡ pipe_room (k.inode i)
        → Leads h (write_round i buf (chars_of ((k.inode i).i_zone 0) count size) k)
    write-Leads buf count size h k (g, ts, e) found = (
      after_write buf count g,
      then_turn ts (writes buf count),
      ap (λ k. write_round i buf (chars_of ((k.inode i).i_zone 0) count (pipe_room (k.inode i))) k)
            e
          ∙ ap (λ n. write_round i buf (chars_of ((k.inode i).i_zone 0) count n) k) (sym found),
    )

    other_way : {n size : ℕ} → (n ≡ 0) ⊎ (n ≡ size) → (n == 0) ≡ false → n ≡ size
    other_way (inl none) some = absurd (ground arith)
    other_way (inr all) some = all

    read_loop-Leads :
        (f buf count read : ℕ) (h : History) (k : Kernel)
        → Leads h k
        → Gives (λ _. Leads h) (read_loop f i buf count read k)
    unfolding read_loop
    read_loop-Leads zero buf count read h k lead = stops
    read_loop-Leads (suc f) buf count read h k lead =
        Gives-elim (count == 0) (λ _. returns lead)
          λ _.
            Gives-then (pipe_wait m.rounds pipe_size i k)
              (pipe_wait-Leads m.rounds pipe_size h k lead)
              λ size k₁ waited.
                Gives-elim (size == 0) (λ _. returns waited.0)
                  λ some.
                    read_loop-Leads f _ _ _ h _
                      (read-Leads buf count size h k₁ waited.0 (other_way waited.1 some))

    write_loop-Leads :
        (f buf count written : ℕ) (h : History) (k : Kernel)
        → Leads h k
        → Gives (λ _. Leads h) (write_loop f i buf count written k)
    unfolding write_loop
    write_loop-Leads zero buf count written h k lead = stops
    write_loop-Leads (suc f) buf count written h k lead =
        Gives-elim (count == 0) (λ _. returns lead)
          λ _.
            Gives-then (pipe_wait m.rounds pipe_room i k)
              (pipe_wait-Leads m.rounds pipe_room h k lead)
              λ size k₁ waited.
                Gives-elim (size == 0)
                  (λ _.
                    let (g, ts, e) = waited.0 in
                    returns (
                      _,
                      then_turn ts (other _ refl (λ j. refl)),
                      ap
                          (λ (k : Kernel). record k {
                            current = record k.current {
                              signal = bit_or k.current.signal sigpipe_bit;
                            };
                          })
                          e,
                    ))
                  λ some.
                    write_loop-Leads f _ _ _ h _
                      (write-Leads buf count size h k₁ waited.0 (other_way waited.1 some))

    -- Whatever readers and writers of the pipe do while `read_pipe` sleeps, at its return all bytes
    -- that were ever written to the pipe are those that were read from it, in the same order, and
    -- behind them those that it holds. Other tasks leave the inode and its page to these two calls.
    pub read_pipe-IsOrdered :
        (buf count : ℕ) (h : History) (k : Kernel) (r : ℤ)
        → IsOrdered h
        → read_pipe i buf count h.kernel ≡ ok r k
        → (g : History) × Turns h g × (g.kernel ≡ k) × IsOrdered g
    unfolding read_pipe
    read_pipe-IsOrdered buf count h k r o e =
        let (g, ts, same) = Gives-ok called e in (g, ts, same, Turns-IsOrdered ts o)
      where
        called : Gives (λ (_ : ℤ). Leads h) (read_pipe i buf count h.kernel)
        called =
            Gives-branch (leb (2 ^ 31) count) _ _ h.kernel (λ _. returns (h, here, refl))
              (λ _. read_loop-Leads m.rounds buf count 0 h h.kernel (h, here, refl))

    -- Whatever readers and writers of the pipe do while `write_pipe` sleeps, at its return, with all
    -- bytes written or with the readers gone, all bytes that were ever written to the pipe are those
    -- that were read from it, in the same order, and behind them those that it holds. Other tasks
    -- leave the inode and its page to the two calls.
    pub write_pipe-IsOrdered :
        (buf count : ℕ) (h : History) (k : Kernel) (r : ℤ)
        → IsOrdered h
        → write_pipe i buf count h.kernel ≡ ok r k
        → (g : History) × Turns h g × (g.kernel ≡ k) × IsOrdered g
    unfolding write_pipe
    write_pipe-IsOrdered buf count h k r o e =
        let (g, ts, same) = Gives-ok called e in (g, ts, same, Turns-IsOrdered ts o)
      where
        called : Gives (λ (_ : ℤ). Leads h) (write_pipe i buf count h.kernel)
        called =
            Gives-branch (leb (2 ^ 31) count) _ _ h.kernel (λ _. returns (h, here, refl))
              (λ _. write_loop-Leads m.rounds buf count 0 h h.kernel (h, here, refl))
