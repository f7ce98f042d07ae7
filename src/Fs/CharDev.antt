-- ===== src/Fs/CharDev.antt =====
-- fs/char_dev.c: the character devices. The position is that of an open file, `pos` of the source.
use neantis.Prelude.{
  ℕ, true, false, zero, suc, ◌+◌, ◌-◌, ◌||◌, ◌%◌, ◌^◌, ltb, leb, ◌==◌, if◌then◌else◌, update, List,
  [], ◌∷◌, get_or, Option, some, none,
}
use neantis.Prelude.Words.{u8, u32, sub32}
use neantis.Fs.State.{Ptr}
use neantis.Fs.Run.{ok, Cmd, pure, and_then, ◌>>=◌, ◌>>◌, gets, modify, set_file}
use neantis.Fs.Errno.{ℤ, pos, negsuc, error, success, eperm, eio, enodev}
use neantis.Fs.Mount.{major}
use neantis.Fs.Buffer.{read}
use neantis.Fs.Drivers.{Drivers}

abbrev pub minor : ℕ → ℕ
minor dev = dev % 2 ^ 8

-- A number of 32 bits as a signed one.
unfoldable pub signed : ℕ → ℤ
signed n = if ltb n (2 ^ 31) then pos n else negsuc (2 ^ 32 - 1 - n)

-- `*pos += n`
abbrev pub advance : Ptr → ℕ → Cmd (Unit {0})
advance f n = set_file f λ r. record r { f_pos = u32 (r.f_pos + n) }

module _ ⦃d : Drivers⦄ where
  unfoldable pub rw_ttyx : ℕ → ℕ → ℕ → ℕ → Cmd ℤ
  rw_ttyx cmd min buf count =
      if cmd == read then d.tty_read min buf count else d.tty_write min buf count

  unfoldable pub rw_tty : ℕ → ℕ → ℕ → Cmd ℤ
  unfolding rw_ttyx
  rw_tty cmd buf count = do
    t ← gets λ k. k.current
    if leb (2 ^ 31) t.tty then pure (error eperm) else rw_ttyx cmd t.tty buf count

  -- One round of the loop of `rw_port`.
  unfoldable pub port_byte : ℕ → ℕ → ℕ → Cmd (Unit {0})
  port_byte cmd i buf =
      if cmd == read
      then (do v ← d.inb i; modify λ k. record k { fs = update k.fs buf (u8 v) })
      else (do v ← gets λ k. k.fs buf; d.outb v i)

  -- The loop of `rw_port`, with `count` bytes left: the port after the last one.
  unfoldable pub port_loop : ℕ → ℕ → ℕ → ℕ → Cmd ℕ
  unfolding port_byte
  port_loop cmd zero i buf k = ok i k
  port_loop cmd (suc count) i buf k = elim (ltb i 65536 || leb (2 ^ 31) i) [
    | true ↦ and_then (port_byte cmd i buf k) λ _ k₁. port_loop cmd count (u32 (i + 1)) (buf + 1) k₁
    | false ↦ ok i k
  ]

  unfoldable pub rw_port : ℕ → ℕ → ℕ → Ptr → Cmd ℤ
  unfolding port_loop signed
  rw_port cmd buf count f = do
    r ← gets λ k. k.file f
    i ← port_loop cmd count r.f_pos buf
    r ← gets λ k. k.file f
    let moved = sub32 i r.f_pos
    advance f moved
    pure (signed moved)

  -- The devices 0 to 2 (`rw_ram`, `rw_mem` and `rw_kmem`) only fail.
  unfoldable pub rw_memory : ℕ → ℕ → ℕ → ℕ → Ptr → Cmd ℤ
  unfolding rw_port
  rw_memory cmd min buf count f =
      if ltb min 3
      then pure (error eio)
      else if min == 3
      then pure (if cmd == read then success else pos count)
      else if min == 4
      then rw_port cmd buf count f
      else pure (error eio)

  -- `crw_table`
  unfoldable pub crw_table : List (Option (ℕ → ℕ → ℕ → ℕ → Ptr → Cmd ℤ))
  unfolding rw_memory rw_ttyx rw_tty
  crw_table =
      none
      ∷ some rw_memory
      ∷ none
      ∷ none
      ∷ some (λ cmd min buf count f. rw_ttyx cmd min buf count)
      ∷ some (λ cmd min buf count f. rw_tty cmd buf count)
      ∷ none
      ∷ none
      ∷ []

  unfoldable pub rw_char : ℕ → ℕ → ℕ → ℕ → Ptr → Cmd ℤ
  unfolding crw_table
  rw_char cmd dev buf count f = elim (get_or crw_table (major dev) none) [
    | none ↦ pure (error enodev)
    | some call ↦ call cmd (minor dev) buf count f
  ]
