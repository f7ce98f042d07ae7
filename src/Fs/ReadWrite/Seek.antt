-- ===== src/Fs/ReadWrite/Seek.antt =====
-- fs/read_write.c: where `sys_lseek` leaves a file.
use neantis.Prelude.{ℕ, ◌^◌, ◌<◌, ◌≡◌, refl, arith, not, ◌||◌, leb, ◌==◌}
use neantis.Fs.State.{Ptr, null, nr_open, Kernel}
use neantis.Fs.Run.{ok}
use neantis.Fs.Run.Gives.{Gives, returns, Gives-branch, Gives-ok}
use neantis.Fs.Errno.{ℤ, pos, negsuc}
use neantis.Fs.Mount.{major}
use neantis.Fs.ReadWrite.{is_seekable, seek_to, sys_lseek}

-- The call's result, for the open file `f`: where it stands now, or an error and nothing changed.
abbrev pub Placed : Kernel → Ptr → ℤ → Kernel → Type 0
Placed k f (pos n) k' = (n < 2 ^ 31) × ((k'.file f).f_pos ≡ n)
Placed k f (negsuc e) k' = k' ≡ k

-- `sys_lseek` gives the position that the file then has, and it is never negative; or it gives an
-- error and changes nothing.
pub sys_lseek-Placed :
    (fd offset origin : ℕ) (k k' : Kernel) (r : ℤ)
    → sys_lseek fd offset origin k ≡ ok r k'
    → Placed k (k.current.filp fd) r k'
unfolding sys_lseek
sys_lseek-Placed fd offset origin k k' r e = Gives-ok all e
  where
    all : Gives (Placed k (k.current.filp fd)) (sys_lseek fd offset origin k)
    all =
        let f = k.current.filp fd in
        let file = k.file f in
        let i = k.inode file.f_inode in
        let place = seek_to origin i.i_size file.f_pos offset in
        Gives-branch
          (leb nr_open fd || f == null || file.f_inode == null || not (is_seekable (major i.i_dev)))
          _ _ k (λ _. returns refl)
          λ _.
            Gives-branch (not (i.i_pipe == 0)) _ _ k (λ _. returns refl)
              λ _.
                Gives-branch (leb 3 origin) _ _ k (λ _. returns refl)
                  λ _.
                    Gives-branch (leb (2 ^ 31) place) _ _ k (λ _. returns refl)
                      λ low. returns (ground arith, ground arith)
