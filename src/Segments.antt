-- ===== src/Segments.antt =====
-- include/neantis/head.h, include/neantis/sched.h and include/asm/system.h: the descriptors of the
-- processor, as their eight bytes, and the gates of the interrupt table. The assembly is written out
-- by what it does.
pub mod Fields
use neantis.Prelude.{ℕ, ◌+◌, ◌-◌, ◌*◌, ◌/◌, ◌%◌, ◌^◌, ◌==◌, if◌then◌else◌, update, bit_or}
use neantis.Prelude.Words.{sub32}
use neantis.Fs.Bytes.{load16, store16}

-- `struct desc_struct` in a local descriptor table
abbrev pub Desc : Type 0
Desc = ℕ → ℕ

abbrev pub page_align : ℕ → ℕ
page_align n = (n + 0xfff) % 2 ^ 32 / 2 ^ 12 * 2 ^ 12

unfoldable pub set_base : Desc → ℕ → Desc
unfolding store16
set_base d base =
    update (update (store16 d 2 (base % 2 ^ 16)) 4 (base / 2 ^ 16 % 2 ^ 8)) 7
      (base / 2 ^ 24 % 2 ^ 8)

unfoldable pub get_base : Desc → ℕ
unfolding load16
get_base d = load16 d 2 + 2 ^ 16 * d 4 + 2 ^ 24 * d 7

-- `_set_limit`: the upper half of byte 6 stays.
unfoldable pub set_limit_field : Desc → ℕ → Desc
unfolding store16
set_limit_field d limit =
    update (store16 d 0 (limit % 2 ^ 16)) 6 (bit_or (16 * (d 6 / 16 % 16)) (limit / 2 ^ 16 % 2 ^ 8))

unfoldable pub set_limit : Desc → ℕ → Desc
unfolding set_limit_field
set_limit d limit = set_limit_field d (sub32 limit 1 / 2 ^ 12)

-- `lsll` and `incl`: the limit in bytes, for the granularity that the descriptor has.
unfoldable pub get_limit : Desc → ℕ
unfolding load16
get_limit d =
    let field = load16 d 0 + 2 ^ 16 * (d 6 % 16) in
    if d 6 / 2 ^ 7 % 2 == 1 then (field * 2 ^ 12 + 0xfff + 1) % 2 ^ 32 else field + 1

-- A gate of `idt`, as its two words.
pub record Gate : Type 0 where
  pub a : ℕ
  pub b : ℕ

-- `_set_gate`. Its first instruction moves `ds` into `ax`, and not the lower half of `addr`.
unfoldable pub set_gate : ℕ → ℕ → ℕ → ℕ → Gate
set_gate ds type dpl addr = record {
  a = 0x00080000 + ds % 2 ^ 16;
  b = addr / 2 ^ 16 % 2 ^ 16 * 2 ^ 16 + (0x8000 + dpl * 2 ^ 13 + type * 2 ^ 8) % 2 ^ 16;
}
