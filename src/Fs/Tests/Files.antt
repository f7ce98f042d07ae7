-- ===== src/Fs/Tests/Files.antt =====
-- Descriptors: the theorems at a concrete state.
use neantis.Prelude.{ℕ, ◌≤◌, ◌≡◌, refl, arith, ◌==◌, if◌then◌else◌}
use neantis.Fs.State.{null, Kernel}
use neantis.Fs.Run.{ok}
use neantis.Fs.Errno.{pos, success}
use neantis.Fs.Files.{dupfd, sys_close}
use neantis.Fs.Files.Dup.{sys_close-dupfd}
use neantis.Fs.Tests.{quiet, small}

-- Descriptors 0 and 1 stand for files 5 and 6.
abbrev two_open : Kernel
two_open = record small {
  file = λ f. record { f_mode = 1; f_flags = 0; f_count = 1; f_inode = 1; f_pos = 0 };
  current = record small.current {
    filp = λ fd. if fd == 0 then 5 else if fd == 1 then 6 else null;
  };
}

abbrev all_open : Kernel
all_open = record two_open { current = record two_open.current { filp = λ fd. 5 } }

sys_close-dupfd_example :
    (new : ℕ) × (k₁ : Kernel) × (k' : Kernel) × (1 ≤ new)
    × (two_open.current.filp new ≡ null)
    × (dupfd 1 1 two_open ≡ ok (pos new) k₁)
    × (sys_close new k₁ ≡ ok success k')
    × (k'.current.filp ≡ two_open.current.filp)
    × (k'.file ≡ two_open.file)
sys_close-dupfd_example =
    sys_close-dupfd 1 1 4 two_open (omega arith) (omega arith) (omega arith) (omega arith) refl
      (omega arith) (omega arith)
