-- ===== src/Fs/Tests/Devices.antt =====
-- An open file of seven bytes and no zones: the theorems at a concrete state.
use neantis.Prelude.{ℕ, ◌+◌, ◌<◌, ◌≤◌, ◌≡◌, refl, ◌⊎◌, inl, arith, ◌==◌, if◌then◌else◌, update}
use neantis.Fs.State.{zero_inode, Kernel}
use neantis.Fs.Run.{ok}
use neantis.Fs.Errno.{pos, error, success, enoent}
use neantis.Fs.Drivers.{Drivers}
use neantis.Fs.ReadWrite.{sys_lseek, sys_read}
use neantis.Fs.ReadWrite.Seek.{Placed, sys_lseek-Placed}
use neantis.Fs.ReadWrite.Extent.{IsExtent, sys_read-IsExtent}
use neantis.Fs.Stat.{sys_fstat, stat_size}
use neantis.Fs.Stat.Fields.{IsStat, IsInode, sys_fstat-IsStat}
use neantis.Fs.Open.{sys_open}
use neantis.Fs.Open.Fails.{Fails, sys_open-error}
use neantis.Fs.Tests.{quiet, small, state}

-- The drivers of devices that take what is written and have nothing to read.
instance abbrev idle : Drivers
idle = record {
  tty_read = λ min buf count. ok success;
  tty_write = λ min buf count. ok (pos count);
  tty_ioctl = λ dev cmd arg. ok success;
  inb = λ port. ok 0;
  outb = λ value port. ok tt;
  verify_area = λ a n. ok tt;
  stack = λ p. 0;
}

abbrev opened : Kernel
opened = record small {
  inode = update small.inode 3 (record zero_inode {
    i_mode = 0o100644;
    i_size = 7;
    i_nlinks = 1;
    i_dev = 0x301;
    i_num = 7;
    i_count = 1;
  });
  file =
      update small.file 1 (record { f_mode = 1; f_flags = 0; f_count = 1; f_inode = 3; f_pos = 2 });
  current = record small.current { filp = λ fd. if fd == 0 then 1 else 0 };
}

seeks : sys_lseek 0 3 1 opened ≡ ok (pos 5) (state (sys_lseek 0 3 1 opened))
unfolding sys_lseek
seeks = refl

sys_lseek-Placed_example : Placed opened 1 (pos 5) (state (sys_lseek 0 3 1 opened))
sys_lseek-Placed_example =
    sys_lseek-Placed 0 3 1 opened (state (sys_lseek 0 3 1 opened)) (pos 5) seeks

-- Ten bytes are asked for; five are left.
reads_rest : sys_read 0 500 10 opened ≡ ok (pos 5) (state (sys_read 0 500 10 opened))
unfolding sys_read
reads_rest = refl

sys_read-IsExtent_example : IsExtent 1 500 5 opened (pos 5) (state (sys_read 0 500 10 opened))
sys_read-IsExtent_example =
    sys_read-IsExtent 0 500 10 opened (state (sys_read 0 500 10 opened)) (pos 5) (λ a n k. refl)
      (λ k. (refl, refl)) (λ rw b k. (refl, refl)) refl (inl refl) (omega arith) (omega arith)
      reads_rest

opened-IsInode : IsInode (opened.inode 3)
opened-IsInode = omega arith

sys_fstat-IsStat_example :
    (fs : ℕ → ℕ) × (sys_fstat 0 600 opened ≡ ok success (record opened { fs = fs }))
    × IsStat (opened.inode 3) fs 600
    × ((x : ℕ) → ((x < 600) ⊎ (600 + stat_size ≤ x)) → fs x ≡ opened.fs x)
sys_fstat-IsStat_example =
    sys_fstat-IsStat 0 600 opened (λ a n k. refl) (omega arith) (omega arith) (omega arith)
      opened-IsInode

opens_nothing : sys_open 0 0 0 small ≡ ok (error enoent) (state (sys_open 0 0 0 small))
unfolding sys_open
opens_nothing = refl

sys_open-error_example : Fails small (error enoent)
sys_open-error_example =
    sys_open-error 0 0 0 small (state (sys_open 0 0 0 small)) (error enoent) opens_nothing
