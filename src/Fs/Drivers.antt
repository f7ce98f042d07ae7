-- ===== src/Fs/Drivers.antt =====
-- The drivers behind the device files, which this repository declares and does not have: the
-- terminals, the ports of the processor, and `verify_area` of the memory management.
use neantis.Prelude.{ℕ}
use neantis.Fs.State.{Block}
use neantis.Fs.Run.{Cmd, Proc}
use neantis.Fs.Errno.{ℤ}

-- `stack` is what lies in the memory of a local variable before it is assigned.
pub record Drivers : Type 0 where
  pub tty_read : ℕ → ℕ → ℕ → Cmd ℤ
  pub tty_write : ℕ → ℕ → ℕ → Cmd ℤ
  pub tty_ioctl : ℕ → ℕ → ℕ → Cmd ℤ
  pub inb : ℕ → Cmd ℕ
  pub outb : ℕ → ℕ → Proc
  pub verify_area : ℕ → ℕ → Proc
  pub stack : Block
