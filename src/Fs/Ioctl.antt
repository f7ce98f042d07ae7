-- ===== src/Fs/Ioctl.antt =====
-- fs/ioctl.c: the drivers' own commands.
use neantis.Prelude.{
  ℕ, leb, ◌||◌, not, ◌&&◌, ◌==◌, if◌then◌else◌, List, [], ◌∷◌, get_or, Option, some, none,
}
use neantis.Fs.State.{null, nr_open}
use neantis.Fs.Run.{panic, Cmd, pure, ◌>>=◌, gets}
use neantis.Fs.Errno.{ℤ, error, ebadf, einval, enotty}
use neantis.Fs.Truncate.{s_ischr, s_isblk}
use neantis.Fs.Mount.{major}
use neantis.Fs.Drivers.{Drivers}

module _ ⦃d : Drivers⦄ where
  -- Major number, and what `ioctl_table` has there: the terminals.
  unfoldable pub ioctl_table : List (Option (ℕ → ℕ → ℕ → Cmd ℤ))
  ioctl_table = none ∷ none ∷ none ∷ none ∷ some d.tty_ioctl ∷ some d.tty_ioctl ∷ none ∷ none ∷ []

  unfoldable pub sys_ioctl : ℕ → ℕ → ℕ → Cmd ℤ
  unfolding ioctl_table
  sys_ioctl fd cmd arg = do
    k ← gets λ k. k
    let f = k.current.filp fd
    let r = k.inode (k.file f).f_inode
    let dev = r.i_zone 0
    if leb nr_open fd || f == null
        then pure (error ebadf)
        else if not (s_ischr r.i_mode) && not (s_isblk r.i_mode)
        then pure (error einval)
        else if leb 8 (major dev)
        then panic
        else elim (get_or ioctl_table (major dev) none) [
          | none ↦ pure (error enotty)
          | some call ↦ call dev cmd arg
        ]
