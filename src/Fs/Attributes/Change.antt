-- ===== src/Fs/Attributes/Change.antt =====
-- fs/open.c: how `chdir` moves the task to another directory.
use neantis.Prelude.{ℕ, ◌-◌, ◌^◌, ◌<◌, ◌≡◌, refl, ◌≢◌, true, update, ==_ne}
use neantis.Fs.State.{Ptr, null, Kernel}
use neantis.Fs.Run.{ok, Cmd, Machine}
use neantis.Fs.Run.Gives.{Gives, returns, Gives-then, Gives-ok}
use neantis.Fs.Errno.{ℤ, error, success, enoent}
use neantis.Fs.Truncate.{s_isdir}
use neantis.Fs.Inode.Counts.{OnlyCounts, iput-drop_count}
use neantis.Fs.Namei.Path.{namei}
use neantis.Fs.Namei.Walk.{namei-IsNull}
use neantis.Fs.Attributes.{sys_chdir_with, sys_chdir}

module _ ⦃m : Machine⦄ where
  -- Where the path leads to a directory and the old working directory stays in use or needs no
  -- write, `chdir` makes it the working directory, takes one holder off the old one, and changes
  -- nothing else.
  sys_chdir_with-directory :
      (look : ℕ → Cmd Ptr) (path i : ℕ) (k k' : Kernel)
      → 0 < m.rounds
      → look path k ≡ ok i k'
      → i ≢ null
      → s_isdir (k'.inode i).i_mode ≡ true
      → k'.current.pwd ≢ null
      → (k'.inode k'.current.pwd).i_lock ≡ 0
      → 0 < (k'.inode k'.current.pwd).i_count
      → (k'.inode k'.current.pwd).i_count < 2 ^ 16
      → OnlyCounts (k'.inode k'.current.pwd)
      → let pwd = k'.current.pwd in
        sys_chdir_with look path k
        ≡ ok success (record k' {
          inode =
              update k'.inode pwd (record (k'.inode pwd) { i_count = (k'.inode pwd).i_count - 1 });
          current = record k'.current { pwd = i };
        })
  unfolding sys_chdir_with
  sys_chdir_with-directory look path i k k' some_rounds found real directory old free used few why =
      rw (
        found,
        ==_ne i null real,
        directory,
        iput-drop_count k'.current.pwd k' some_rounds old free used few why,
      )

  -- Whenever `chdir` returns, it returns -ENOENT: no path leads to a directory.
  sys_chdir-enoent :
      (path : ℕ) (k k' : Kernel) (r : ℤ) → sys_chdir path k ≡ ok r k' → r ≡ error enoent
  unfolding sys_chdir sys_chdir_with
  sys_chdir-enoent path k k' r e = Gives-ok all e
    where
      all : Gives (λ r _. r ≡ error enoent) (sys_chdir path k)
      all = Gives-then (namei path k) (namei-IsNull path k) λ i k₁ none. rw none (returns refl)
