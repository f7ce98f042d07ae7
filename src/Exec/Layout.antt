-- ===== src/Exec/Layout.antt =====
-- include/a.out.h: where the parts of a program stand in its file, and in memory.
use neantis.Prelude.{ℕ, ◌+◌, ◌-◌, ◌^◌, Bool, not, ◌&&◌, ◌==◌, if◌then◌else◌, bit_and}
use neantis.Prelude.Words.{u32, sub32}
use neantis.Exec.Image.{Header, zmagic, segment_size, text_offset}

abbrev pub omagic : ℕ
omagic = 0o407

abbrev pub nmagic : ℕ
nmagic = 0o410

-- `N_BADMAG`
abbrev pub is_bad_magic : Header → Bool
is_bad_magic x = not (x.a_magic == omagic) && not (x.a_magic == nmagic) && not (x.a_magic == zmagic)

-- `N_DATOFF`
abbrev pub data_offset : Header → ℕ
data_offset x = u32 (text_offset x + x.a_text)

-- `N_TRELOFF`
abbrev pub text_relocations : Header → ℕ
text_relocations x = u32 (data_offset x + x.a_data)

-- `N_DRELOFF`
abbrev pub data_relocations : Header → ℕ
data_relocations x = u32 (text_relocations x + x.a_trsize)

-- `N_SYMOFF`
abbrev pub symbol_offset : Header → ℕ
symbol_offset x = u32 (data_relocations x + x.a_drsize)

-- `N_STROFF`
abbrev pub string_offset : Header → ℕ
string_offset x = u32 (symbol_offset x + x.a_syms)

-- `N_TXTADDR`
abbrev pub text_address : Header → ℕ
text_address x = 0

-- `_N_SEGMENT_ROUND`
abbrev pub segment_round : ℕ → ℕ
segment_round x = bit_and (sub32 (x + segment_size) 1) (2 ^ 32 - 1 - (segment_size - 1))

-- `_N_TXTENDADDR`
abbrev pub text_end : Header → ℕ
text_end x = u32 (text_address x + x.a_text)

-- `N_DATADDR`
abbrev pub data_address : Header → ℕ
data_address x = if x.a_magic == omagic then text_end x else segment_round (text_end x)

-- `N_BSSADDR`
abbrev pub bss_address : Header → ℕ
bss_address x = u32 (data_address x + x.a_data)
