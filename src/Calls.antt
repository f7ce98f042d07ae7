-- ===== src/Calls.antt =====
-- include/neantis/sys.h and include/unistd.h: the numbers of the system calls, and how a program
-- makes one. What the trap does is an argument, since its entry is assembly.
use neantis.Prelude.{ℕ, ◌^◌, ◌-◌, ltb, if◌then◌else◌, List, [], ◌∷◌}
use neantis.Prelude.Words.{sub32}

-- the functions that are declared for the table
pub data SystemCall : Type 0 where
  sys_setup : SystemCall
  sys_exit : SystemCall
  sys_fork : SystemCall
  sys_read : SystemCall
  sys_write : SystemCall
  sys_open : SystemCall
  sys_close : SystemCall
  sys_waitpid : SystemCall
  sys_creat : SystemCall
  sys_link : SystemCall
  sys_unlink : SystemCall
  sys_execve : SystemCall
  sys_chdir : SystemCall
  sys_time : SystemCall
  sys_mknod : SystemCall
  sys_chmod : SystemCall
  sys_chown : SystemCall
  sys_break : SystemCall
  sys_stat : SystemCall
  sys_lseek : SystemCall
  sys_getpid : SystemCall
  sys_mount : SystemCall
  sys_umount : SystemCall
  sys_setuid : SystemCall
  sys_getuid : SystemCall
  sys_stime : SystemCall
  sys_ptrace : SystemCall
  sys_alarm : SystemCall
  sys_fstat : SystemCall
  sys_pause : SystemCall
  sys_utime : SystemCall
  sys_stty : SystemCall
  sys_gtty : SystemCall
  sys_access : SystemCall
  sys_nice : SystemCall
  sys_ftime : SystemCall
  sys_sync : SystemCall
  sys_kill : SystemCall
  sys_rename : SystemCall
  sys_mkdir : SystemCall
  sys_rmdir : SystemCall
  sys_dup : SystemCall
  sys_pipe : SystemCall
  sys_times : SystemCall
  sys_prof : SystemCall
  sys_brk : SystemCall
  sys_setgid : SystemCall
  sys_getgid : SystemCall
  sys_signal : SystemCall
  sys_geteuid : SystemCall
  sys_getegid : SystemCall
  sys_acct : SystemCall
  sys_phys : SystemCall
  sys_lock : SystemCall
  sys_ioctl : SystemCall
  sys_fcntl : SystemCall
  sys_mpx : SystemCall
  sys_setpgid : SystemCall
  sys_ulimit : SystemCall
  sys_uname : SystemCall
  sys_umask : SystemCall
  sys_chroot : SystemCall
  sys_ustat : SystemCall
  sys_dup2 : SystemCall
  sys_getppid : SystemCall
  sys_getpgrp : SystemCall
  sys_setsid : SystemCall
  sys_sigaction : SystemCall
  sys_sgetmask : SystemCall
  sys_ssetmask : SystemCall
  sys_setreuid : SystemCall
  sys_setregid : SystemCall
  sys_iam : SystemCall
  sys_whoami : SystemCall

abbrev pub sys_call_table : List SystemCall
sys_call_table =
    sys_setup ∷ sys_exit ∷ sys_fork ∷ sys_read ∷ sys_write ∷ sys_open ∷ sys_close ∷ sys_waitpid
    ∷ sys_creat ∷ sys_link ∷ sys_unlink ∷ sys_execve ∷ sys_chdir ∷ sys_time ∷ sys_mknod ∷ sys_chmod
    ∷ sys_chown ∷ sys_break ∷ sys_stat ∷ sys_lseek ∷ sys_getpid ∷ sys_mount ∷ sys_umount
    ∷ sys_setuid ∷ sys_getuid ∷ sys_stime ∷ sys_ptrace ∷ sys_alarm ∷ sys_fstat ∷ sys_pause
    ∷ sys_utime ∷ sys_stty ∷ sys_gtty ∷ sys_access ∷ sys_nice ∷ sys_ftime ∷ sys_sync ∷ sys_kill
    ∷ sys_rename ∷ sys_mkdir ∷ sys_rmdir ∷ sys_dup ∷ sys_pipe ∷ sys_times ∷ sys_prof ∷ sys_brk
    ∷ sys_setgid ∷ sys_getgid ∷ sys_signal ∷ sys_geteuid ∷ sys_getegid ∷ sys_acct ∷ sys_phys
    ∷ sys_lock ∷ sys_ioctl ∷ sys_fcntl ∷ sys_mpx ∷ sys_setpgid ∷ sys_ulimit ∷ sys_uname ∷ sys_umask
    ∷ sys_chroot ∷ sys_ustat ∷ sys_dup2 ∷ sys_getppid ∷ sys_getpgrp ∷ sys_setsid ∷ sys_sigaction
    ∷ sys_sgetmask ∷ sys_ssetmask ∷ sys_setreuid ∷ sys_setregid ∷ sys_iam ∷ sys_whoami ∷ []

abbrev pub nr_setup : ℕ
nr_setup = 0

abbrev pub nr_fork : ℕ
nr_fork = 2

abbrev pub nr_pause : ℕ
nr_pause = 29

abbrev pub nr_sync : ℕ
nr_sync = 36

-- What a call leaves in the program: its result, a word of 32 bits, and `errno`.
pub record Returned (S : Type 0) : Type 0 where
  pub result : ℕ
  pub errno : ℕ
  pub state : S

-- The end of both macros: from `__res` to the result and `errno`. A word from 2 ^ 31 on is negative.
unfoldable pub finish : {S : Type 0} → ℕ → (ℕ × S) → Returned S
finish errno (res, s) =
    if ltb res (2 ^ 31)
    then record { result = res; errno = errno; state = s }
    else record { result = 2 ^ 32 - 1; errno = sub32 0 res; state = s }

-- `_syscall0`: the trap gets the number of the call in `eax`.
unfoldable pub syscall0 : {S : Type 0} → (ℕ → S → ℕ × S) → ℕ → ℕ → S → Returned S
unfolding finish
syscall0 int80 nr errno s = finish errno (int80 nr s)

-- `_syscall1`: and its argument in `ebx`.
unfoldable pub syscall1 : {S : Type 0} → (ℕ → ℕ → S → ℕ × S) → ℕ → ℕ → ℕ → S → Returned S
unfolding finish
syscall1 int80 nr a errno s = finish errno (int80 nr a s)
