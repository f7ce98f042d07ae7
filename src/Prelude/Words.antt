-- ===== src/Prelude/Words.antt =====
-- The arithmetic of C's unsigned types: `unsigned char`, `unsigned short`, `unsigned long`.
use Prim.Native.Nat.{ℕ, ◌+◌, ◌-◌, ◌%◌, ◌^◌}

abbrev pub u8 : ℕ → ℕ
u8 n = n % 2 ^ 8

abbrev pub u16 : ℕ → ℕ
u16 n = n % 2 ^ 16

abbrev pub u32 : ℕ → ℕ
u32 n = n % 2 ^ 32

-- `x - y`, which wraps
abbrev pub sub8 : ℕ → ℕ → ℕ
sub8 x y = (x + 2 ^ 8 - y) % 2 ^ 8

abbrev pub sub16 : ℕ → ℕ → ℕ
sub16 x y = (x + 2 ^ 16 - y) % 2 ^ 16

abbrev pub sub32 : ℕ → ℕ → ℕ
sub32 x y = (x + 2 ^ 32 - y) % 2 ^ 32
