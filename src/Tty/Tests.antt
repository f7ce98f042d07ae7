-- ===== src/Tty/Tests.antt =====
-- Tests of the terminal queues, and their theorems at concrete queues.
use neantis.Prelude.{◌≡◌, refl, false, [], ◌∷◌, ◌++◌, arith, ◌==◌, if◌then◌else◌}
use neantis.Tty.{TtyQueue, chars, is_empty, is_full, getch, putch, last}
use neantis.Tty.Fifo.{IsValid, contents, contents-putch, contents-getch}

-- two bytes, round the end of the ring
abbrev wrapped : TtyQueue
wrapped = record {
  port = 0x3f8;
  head = 1;
  tail = 1023;
  buf = λ i. if i == 1023 then b'a' else b'b';
}

wrapped-contents : contents wrapped ≡ b'a' ∷ b'b' ∷ []
unfolding chars
wrapped-contents = refl

not_full : is_full wrapped ≡ false
unfolding is_full
not_full = refl

not_empty : is_empty wrapped ≡ false
unfolding is_empty
not_empty = refl

-- `c` with a higher bit set
contents-putch_example :
    IsValid (putch 0x163 wrapped)
    × (contents (putch 0x163 wrapped) ≡ contents wrapped ++ (b'c' ∷ []))
    × (last (putch 0x163 wrapped) ≡ b'c')
contents-putch_example = contents-putch 0x163 (omega arith) not_full

contents-getch_example :
    IsValid (getch wrapped).1 × (contents wrapped ≡ (getch wrapped).0 ∷ contents (getch wrapped).1)
contents-getch_example = contents-getch (omega arith) not_empty
