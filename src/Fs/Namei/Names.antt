-- ===== src/Fs/Namei/Names.antt =====
-- fs/namei.c: the names that `add_entry` writes.
use neantis.Prelude.{ℕ, zero, suc, ◌+◌, ◌-◌, ◌<◌, ◌≡◌, ◌&&◌, arith, ltb, leb, if◌then◌else◌, update}
use neantis.Fs.State.{name_len, Block}
use neantis.Fs.Bytes.{load16}
use neantis.Fs.Namei.{write_name}

write_name-byte :
    (n i : ℕ) (fs : ℕ → ℕ) (name namelen o : ℕ) (d : Block) (p : ℕ)
    → write_name n i fs name namelen o d p ≡ (
        if leb (o + 2 + i) p && ltb p (o + 2 + i + n)
        then (if ltb (p - (o + 2)) namelen then fs (name + 1) else 0)
        else d p)
unfolding write_name
write_name-byte zero i fs name namelen o d p = ground arith
write_name-byte (suc n) i fs name namelen o d p = ground (
  arith,
  write_name-byte n (i + 1) fs name namelen o
      (update d (o + 2 + i) (if ltb i namelen then fs (name + 1) else 0)) p,
)

-- The name that `add_entry` writes is the second byte of the given one, as often as the given one
-- is long, and zeros up to 14 bytes; the inode number before it is not touched.
write_name-second_byte :
    (fs : ℕ → ℕ) (name namelen o i : ℕ) (d : Block)
    → i < name_len
    → (write_name name_len 0 fs name namelen o d (o + 2 + i)
        ≡ (if ltb i namelen then fs (name + 1) else 0))
      × (load16 (write_name name_len 0 fs name namelen o d) o ≡ load16 d o)
unfolding load16
write_name-second_byte fs name namelen o i d h = ground (
  arith,
  write_name-byte name_len 0 fs name namelen o d (o + 2 + i),
  write_name-byte name_len 0 fs name namelen o d o,
  write_name-byte name_len 0 fs name namelen o d (o + 1),
)
