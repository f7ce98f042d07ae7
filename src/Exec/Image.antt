-- ===== src/Exec/Image.antt =====
-- include/a.out.h, and the header of a program as fs/exec.c reads it.
use neantis.Prelude.{ℕ, ◌+◌, ◌-◌, Bool, not, ◌||◌, ltb, ◌==◌, if◌then◌else◌}
use neantis.Prelude.Words.{u32}
use neantis.Fs.State.{Block}
use neantis.Fs.Bytes.{load32}

-- `struct exec`
pub record Header : Type 0 where
  pub a_magic : ℕ
  pub a_text : ℕ
  pub a_data : ℕ
  pub a_bss : ℕ
  pub a_syms : ℕ
  pub a_entry : ℕ
  pub a_trsize : ℕ
  pub a_drsize : ℕ

-- `sizeof(struct exec)`
abbrev pub header_size : ℕ
header_size = 32

abbrev pub zmagic : ℕ
zmagic = 0o413

abbrev pub segment_size : ℕ
segment_size = 1024

-- `N_TXTOFF`
abbrev pub text_offset : Header → ℕ
text_offset ex =
    if ex.a_magic == zmagic then segment_size - header_size + header_size else header_size

-- `ex = *((struct exec *) bh->b_data)`
unfoldable pub load_header : Block → Header
unfolding load32
load_header d = record {
  a_magic = load32 d 0;
  a_text = load32 d 4;
  a_data = load32 d 8;
  a_bss = load32 d 12;
  a_syms = load32 d 16;
  a_entry = load32 d 20;
  a_trsize = load32 d 24;
  a_drsize = load32 d 28;
}

-- The test of the header against a file of `size` bytes: it is refused.
unfoldable pub is_refused : Header → ℕ → Bool
is_refused ex size =
    not (ex.a_magic == zmagic)
    || not (ex.a_trsize == 0)
    || not (ex.a_drsize == 0)
    || ltb 0x3000000 (u32 (ex.a_text + ex.a_data + ex.a_bss))
    || ltb size (u32 (ex.a_text + ex.a_data + ex.a_syms + text_offset ex))
