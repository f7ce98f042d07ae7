-- ===== src/Fs/ReadWrite/Extent.antt =====
-- fs/read_write.c and fs/file_dev.c: how far `sys_read` reads, and where it writes.
use neantis.Prelude.{
  ℕ, ◌+◌, ◌-◌, ◌^◌, ◌≤◌, ◌<◌, ◌≡◌, ◌⊎◌, refl, arith, Bool, true, false, not, ◌||◌, leb, ◌==◌,
  if◌then◌else◌, min, update,
}
use neantis.Fs.State.{Ptr, null, nr_open, Kernel}
use neantis.Fs.Run.{ok, Machine}
use neantis.Fs.Run.Gives.{Gives, returns, Gives-then, Gives-branch, Gives-mono, Gives-ok}
use neantis.Fs.Errno.{ℤ, pos, negsuc}
use neantis.Fs.Truncate.{s_isreg, s_ischr, s_isblk, s_isdir}
use neantis.Fs.Drivers.{Drivers}
use neantis.Fs.FileDev.{file_read}
use neantis.Fs.ReadWrite.{clip, sys_read}
use neantis.Fs.ReadWrite.Rounds.{Spares, HasMoved, file_read_loop-HasMoved}

-- The result of a read into `buf` from open file `f`: at most `n` bytes are read, those alone are
-- written, and the position moves on by their number; an error moves nothing.
abbrev pub IsExtent : Ptr → ℕ → ℕ → Kernel → ℤ → Kernel → Type 0
IsExtent f buf n k (pos r) k' = (r ≤ n) × HasMoved f buf r k k'
IsExtent f buf n k (negsuc e) k' = HasMoved f buf 0 k k'

unmoved : (f : Ptr) (buf : ℕ) (k : Kernel) → HasMoved f buf 0 k k
unmoved f buf k = (omega arith, λ x out. refl)

module _ ⦃m : Machine⦄ (f : Ptr) (sleeps : Spares f m.sleep_on)
    (drives : (rw : ℕ) (b : Ptr) → Spares f (m.ll_rw_block rw b)) where
  file_read-IsExtent :
      (i : Ptr) (buf count : ℕ) (k : Kernel)
      → (k.file f).f_pos + count < 2 ^ 32
      → Gives (λ r k'. IsExtent f buf count k r k') (file_read i f buf count k)
  unfolding file_read
  file_read-IsExtent i buf count k room =
      Gives-branch (count == 0 || leb (2 ^ 31) count) _ _ k
        (λ _. returns (omega arith, unmoved f buf k))
        λ _.
          Gives-then _ (file_read_loop-HasMoved f sleeps drives m.rounds i buf count k room)
            λ left k₁ (below, moved).
              let now : Kernel = record k₁ {
                inode = update k₁.inode i (record (k₁.inode i) { i_atime = k₁.current_time });
              } in
              returns (by_cases left now moved (count == left) refl)
    where
      by_cases :
          (left : ℕ) (k₁ : Kernel)
          → HasMoved f buf (count - left) k k₁
          → (b : Bool) → (count == left) ≡ b
          → IsExtent f buf count k (if b then negsuc 98 else pos (count - left)) k₁
      by_cases left k₁ (p, fs) true same =
          let all : count ≡ left = ground arith in
          (omega (arith, p, all), λ x out. fs x (omega (arith, all)))
      by_cases left k₁ moved false same = (omega arith, moved)

  -- What is asked for after the position and the size of the file are looked at.
  clipped-IsExtent :
      (i : Ptr) (buf count size : ℕ) (k : Kernel)
      → count < 2 ^ 31
      → (k.file f).f_pos < 2 ^ 31
      → size < 2 ^ 32
      → let n = clip count (k.file f).f_pos size in
        Gives
          (λ r k'. IsExtent f buf (min count (size - (k.file f).f_pos)) k r k')
          ((if n == 0 || leb (2 ^ 31) n then ok (pos 0) else file_read i f buf n) k)
  clipped-IsExtent i buf count size k small_count small_place small_size =
      let n = clip count (k.file f).f_pos size in
      Gives-branch (n == 0 || leb (2 ^ 31) n) _ _ k (λ _. returns (omega arith, unmoved f buf k))
        λ some.
          Gives-mono (file_read-IsExtent i buf n k (ground arith))
            λ r k' extent. weaken n r k' extent (ground arith)
    where
      weaken :
          (n : ℕ) (r : ℤ) (k' : Kernel)
          → IsExtent f buf n k r k'
          → n ≤ min count (size - (k.file f).f_pos)
          → IsExtent f buf (min count (size - (k.file f).f_pos)) k r k'
      weaken n (pos r) k' (le, moved) bound = (omega (arith, le), moved)
      weaken n (negsuc e) k' moved bound = moved

module _ ⦃m : Machine⦄ ⦃d : Drivers⦄ where
  -- `sys_read` of a regular file or a directory returns a number of bytes `r` that is at most what
  -- was asked for and at most what the file holds behind the position, or an error. It writes to no
  -- byte of the user outside the `r` bytes from `buf` on, and moves the position on by `r`; with an
  -- error it writes nothing and leaves the position. The waits and the drivers are taken to leave
  -- the bytes of the user and the position of the open file alone, and `verify_area` to change
  -- nothing that the model has; the position is below 2^31 and the size below 2^32.
  pub sys_read-IsExtent :
      (fd buf count : ℕ) (k k' : Kernel) (r : ℤ)
      → ((a n : ℕ) (k : Kernel) → d.verify_area a n k ≡ ok tt k)
      → let f = k.current.filp fd in
        let file = k.file f in
        let i = k.inode file.f_inode in
        Spares f m.sleep_on
        → ((rw : ℕ) (b : Ptr) → Spares f (m.ll_rw_block rw b))
        → i.i_pipe ≡ 0
        → ((s_isreg i.i_mode ≡ true) ⊎ (s_isdir i.i_mode ≡ true))
        → file.f_pos < 2 ^ 31
        → i.i_size < 2 ^ 32
        → sys_read fd buf count k ≡ ok r k'
        → IsExtent f buf (min count (i.i_size - file.f_pos)) k r k'
  unfolding sys_read
  sys_read-IsExtent fd buf count k k' r verify sleeps drives plain kind small_place small_size e =
      Gives-ok all e
    where
      all :
          let f = k.current.filp fd in
          let file = k.file f in
          Gives
            (λ r k'. IsExtent f buf (min count ((k.inode file.f_inode).i_size - file.f_pos)) k r k')
            (sys_read fd buf count k)
      all =
          let f = k.current.filp fd in
          let file = k.file f in
          let i = k.inode file.f_inode in
          Gives-branch (leb nr_open fd || leb (2 ^ 31) count || f == null) _ _ k
            (λ _. returns (unmoved f buf k))
            λ good.
              Gives-branch (count == 0) _ _ k (λ _. returns (omega arith, unmoved f buf k))
                λ _. rw (verify buf count k) (
                  Gives-branch (not (i.i_pipe == 0)) _ _ k (λ h. absurd (ground arith))
                    λ _.
                      Gives-branch (s_ischr i.i_mode) _ _ k (λ h. absurd (ground arith))
                        λ _.
                          Gives-branch (s_isblk i.i_mode) _ _ k (λ h. absurd (ground arith))
                            λ _.
                              Gives-branch (s_isdir i.i_mode || s_isreg i.i_mode) _ _ k
                                (λ _.
                                  clipped-IsExtent f sleeps drives file.f_inode buf count i.i_size k
                                    (ground arith) small_place small_size)
                                (λ _. returns (unmoved f buf k)))
