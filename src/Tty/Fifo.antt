-- ===== src/Tty/Fifo.antt =====
-- include/neantis/tty.h: a terminal queue as the list of the bytes that it holds.
use neantis.Prelude.{
  ℕ, suc, ◌+◌, ◌-◌, ◌%◌, ◌<◌, ◌≡◌, ◌≢◌, ap, ap₂, ◌∙◌, false, List, [], ◌∷◌, ◌++◌, arith, ◌==◌,
  length, update,
}
use neantis.Prelude.Ring.{window, length-window, window-mod, window-push}
use neantis.Prelude.Words.{u8}
use neantis.Tty.{TtyQueue, tty_buf_size, inc, is_empty, left, last, is_full, chars, getch, putch}

-- Both ends lie in the ring.
pub record IsValid (q : TtyQueue) : Type 0 where
  pub head_in : q.head < tty_buf_size
  pub tail_in : q.tail < tty_buf_size

-- the bytes that the queue holds, oldest first
abbrev pub contents : TtyQueue → List ℕ
contents q = window tty_buf_size q.buf q.tail (chars q)

apart : (a b : ℕ) → a < b → b < a + tty_buf_size → a % tty_buf_size ≢ b % tty_buf_size
apart a b lt near = omega arith

next :
    (a b : ℕ)
    → a % tty_buf_size ≡ b % tty_buf_size
    → (a + 1) % tty_buf_size ≡ (b + 1) % tty_buf_size
next a b e = omega arith

-- `CHARS` counts the bytes held and `LEFT` those that still fit, 1023 together; `EMPTY` and `FULL`
-- say when either is 0.
chars-left :
    {q : TtyQueue}
    → IsValid q
    → (length (contents q) ≡ chars q)
      × (chars q + left q ≡ tty_buf_size - 1)
      × (is_empty q ≡ (chars q == 0))
      × (is_full q ≡ (chars q == tty_buf_size - 1))
unfolding chars left is_empty is_full
chars-left {q} v = (length-window _ q.buf q.tail (chars q), omega arith, ground arith, ground arith)

-- `PUTCH` on a queue that is not full appends the low byte of what it is given, which is then the
-- one that `LAST` reads, and keeps both ends in the ring.
pub contents-putch :
    {q : TtyQueue} (c : ℕ)
    → IsValid q
    → is_full q ≡ false
    → IsValid (putch c q)
      × (contents (putch c q) ≡ contents q ++ (u8 c ∷ []))
      × (last (putch c q) ≡ u8 c)
unfolding putch chars is_full last
contents-putch {q} c v room = (
  omega arith,
  ap (window tty_buf_size (update q.buf q.head (u8 c)) q.tail) {y = suc (chars q)} (ground arith)
      ∙ window-push tty_buf_size apart q.buf q.tail (chars q) q.head (u8 c) (ground arith)
          (omega arith),
  ground arith,
)

-- `GETCH` on a queue that is not empty takes the oldest byte off, and keeps both ends in the ring.
pub contents-getch :
    {q : TtyQueue}
    → IsValid q
    → is_empty q ≡ false
    → IsValid (getch q).1 × (contents q ≡ (getch q).0 ∷ contents (getch q).1)
unfolding getch chars is_empty
contents-getch {q} v some_char = (
  omega arith,
  ap (window tty_buf_size q.buf q.tail) {y = suc (chars (getch q).1)} (ground arith)
      ∙ ap₂ ◌∷◌ (ap q.buf (omega arith)) (
          window-mod tty_buf_size next q.buf (q.tail + 1) (inc q.tail) (chars (getch q).1)
            (omega arith)),
)
