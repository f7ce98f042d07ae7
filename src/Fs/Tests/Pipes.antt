-- ===== src/Fs/Tests/Pipes.antt =====
-- A pipe in inode 3, whose page lies at 0x200000: the theorems at a concrete state.
use neantis.Prelude.{
  ℕ, zero, suc, ◌<◌, ◌≡◌, refl, [], ◌∷◌, ◌++◌, arith, ◌==◌, if◌then◌else◌, update,
}
use neantis.Prelude.Slice.{slice}
use neantis.Fs.State.{zero_inode, Kernel}
use neantis.Fs.Run.{ok, Machine}
use neantis.Fs.Errno.{pos}
use neantis.Fs.Pipe.{read_round, write_round, read_pipe, write_pipe}
use neantis.Fs.Pipe.Rounds.{IsPipe, contents}
use neantis.Fs.Pipe.Calls.{read_pipe-contents, contents-write_pipe}
use neantis.Fs.Pipe.Turns.{
  History, after_write, Turns, writes, here, then_turn, IsOrdered, Leads, read_pipe-IsOrdered,
  write_pipe-IsOrdered,
}
use neantis.Fs.Pipe.Wakes.{asleep, IsDry, read_pipe-wakes}
use neantis.Fs.Tests.{quiet, small, state}

-- The pipe holds two bytes, round the end of the page.
abbrev half_full : Kernel
half_full = record small {
  memory = record small.memory { phys = λ a. if a == 0x200fff then b'a' else b'b' };
  inode = update small.inode 3 (record zero_inode {
    i_size = 0x200000;
    i_zone = λ z. if z == 0 then 1 else 4095;
    i_count = 2;
    i_pipe = 1;
  });
}

half_full-IsPipe : IsPipe (half_full.inode 3)
half_full-IsPipe = omega arith

read_pipe-contents_example :
    (k' : Kernel) × (read_pipe 3 500 2 half_full ≡ ok (pos 2) k')
    × (b'a' ∷ b'b' ∷ [] ≡ slice k'.fs 500 2 ++ contents 3 k')
    × IsPipe (k'.inode 3)
read_pipe-contents_example =
    read_pipe-contents 3 500 2 half_full (omega arith) half_full-IsPipe (omega arith)

contents-write_pipe_example :
    (k' : Kernel) × (write_pipe 3 0 3 half_full ≡ ok (pos 3) k')
    × (contents 3 k' ≡ (b'a' ∷ b'b' ∷ []) ++ (b'/' ∷ b'a' ∷ b'/' ∷ []))
    × IsPipe (k'.inode 3)
contents-write_pipe_example =
    contents-write_pipe 3 0 3 half_full (omega arith) half_full-IsPipe (omega arith)

-- While a task sleeps, another one writes the three bytes at its address 0.
abbrev written : Kernel → Kernel
written k = (after_write 3 0 3 (record { kernel = k; sent = []; received = [] })).kernel

abbrev busy : Machine
busy = record quiet { sleep_on = written }

abbrev fresh : History
fresh = record {
  kernel = record half_full {
    inode = update half_full.inode 3 (record (half_full.inode 3) { i_zone = λ z. 0 });
  };
  sent = [];
  received = [];
}

fresh-IsOrdered : IsOrdered 3 fresh
fresh-IsOrdered = record { valid = omega arith; order = refl }

writes_meanwhile : (h : History) → Leads 3 h (busy.sleep_on h.kernel)
writes_meanwhile h = (after_write 3 0 3 h, then_turn here (writes 0 3), refl)

reads_two :
    read_pipe ⦃m = busy⦄ 3 500 2 fresh.kernel
    ≡ ok (pos 2) (state (read_pipe ⦃m = busy⦄ 3 500 2 fresh.kernel))
unfolding read_pipe read_round write_round
reads_two = refl

read_pipe-IsOrdered_example :
    (g : History) × Turns 3 fresh g
    × (g.kernel ≡ state (read_pipe ⦃m = busy⦄ 3 500 2 fresh.kernel))
    × IsOrdered 3 g
read_pipe-IsOrdered_example =
    read_pipe-IsOrdered 3 ⦃m = busy⦄ writes_meanwhile 500 2 fresh
      (state (read_pipe ⦃m = busy⦄ 3 500 2 fresh.kernel)) (pos 2) fresh-IsOrdered reads_two

writes_three :
    write_pipe ⦃m = busy⦄ 3 0 3 fresh.kernel
    ≡ ok (pos 3) (state (write_pipe ⦃m = busy⦄ 3 0 3 fresh.kernel))
unfolding write_pipe write_round
writes_three = refl

write_pipe-IsOrdered_example :
    (g : History) × Turns 3 fresh g
    × (g.kernel ≡ state (write_pipe ⦃m = busy⦄ 3 0 3 fresh.kernel))
    × IsOrdered 3 g
write_pipe-IsOrdered_example =
    write_pipe-IsOrdered 3 ⦃m = busy⦄ writes_meanwhile 0 3 fresh
      (state (write_pipe ⦃m = busy⦄ 3 0 3 fresh.kernel)) (pos 3) fresh-IsOrdered writes_three

-- One sleep is enough for the two bytes that are asked for.
asleep-IsDry : (j : ℕ) → j < 1 → IsDry ⦃m = busy⦄ 3 (asleep ⦃m = busy⦄ j fresh.kernel)
unfolding asleep
asleep-IsDry zero lt = (refl, refl)
asleep-IsDry (suc j) lt = absurd (omega arith)

read_pipe-wakes_example :
    (k' : Kernel) × (read_pipe ⦃m = busy⦄ 3 500 2 fresh.kernel ≡ ok (pos 2) k')
    × (contents 3 (written fresh.kernel) ≡ slice k'.fs 500 2 ++ contents 3 k')
    × IsPipe (k'.inode 3)
unfolding asleep write_round
read_pipe-wakes_example =
    read_pipe-wakes ⦃m = busy⦄ 1 3 500 2 fresh.kernel (omega arith) (omega arith) (omega arith)
      asleep-IsDry (record { head_in = omega arith; tail_in = omega arith }) (omega arith)
