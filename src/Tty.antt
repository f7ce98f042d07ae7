-- ===== src/Tty.antt =====
-- include/neantis/tty.h: the character queues of a terminal, a ring of 1024 bytes.
-- Each macro that assigns to its argument returns the new value.
pub mod Fifo
mod Tests
use neantis.Prelude.{ℕ, ◌+◌, ◌-◌, ◌%◌, ◌≡◌, Bool, ◌==◌, if◌then◌else◌, update}
use neantis.Prelude.Words.{u8, u32, sub32}

abbrev pub tty_buf_size : ℕ
tty_buf_size = 1024

-- `struct tty_queue`, less the list of waiting processes, which no macro reads.
pub record TtyQueue : Type 0 where
  pub port : ℕ
  pub head : ℕ
  pub tail : ℕ
  pub buf : ℕ → ℕ

-- `& (TTY_BUF_SIZE-1)`
abbrev pub mask : ℕ → ℕ
mask n = n % tty_buf_size

unfoldable pub inc : ℕ → ℕ
inc a = mask (u32 (a + 1))

unfoldable pub dec : ℕ → ℕ
dec a = mask (sub32 a 1)

unfoldable pub is_empty : TtyQueue → Bool
is_empty q = q.head == q.tail

unfoldable pub left : TtyQueue → ℕ
left q = mask (sub32 (sub32 q.tail q.head) 1)

unfoldable pub last : TtyQueue → ℕ
last q = q.buf (mask (sub32 q.head 1))

unfoldable pub is_full : TtyQueue → Bool
unfolding left
is_full q = left q == 0

unfoldable pub chars : TtyQueue → ℕ
chars q = mask (sub32 q.head q.tail)

unfoldable pub getch : TtyQueue → ℕ × TtyQueue
unfolding inc
getch q = (q.buf q.tail, record q { tail = inc q.tail })

-- The ring holds bytes, so that only the low 8 bits of `c` are stored.
unfoldable pub putch : ℕ → TtyQueue → TtyQueue
unfolding inc
putch c q = record q { buf = update q.buf q.head (u8 c); head = inc q.head }
