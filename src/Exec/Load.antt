-- ===== src/Exec/Load.antt =====
-- fs/exec.c: `do_execve`. The call is written over the command that looks a path up (`_with`), and is
-- that for `namei`.
pub mod Ends
use neantis.Prelude.{
  ℕ, ◌+◌, ◌-◌, ◌*◌, ◌/◌, ◌%◌, ◌^◌, Bool, true, false, not, ◌&&◌, ◌||◌, ◌==◌, if◌then◌else◌, some,
  none, bit_and,
}
use neantis.Mm.{page_size}
use neantis.Fs.State.{Ptr, null, MInode, Task, suser}
use neantis.Fs.Run.{panic, Cmd, pure, ◌>>=◌, ◌>>◌, Machine, gets, modify}
use neantis.Fs.Errno.{error, enoent, eacces, enoexec, enomem}
use neantis.Fs.Bytes.{store32}
use neantis.Fs.Truncate.{s_isreg}
use neantis.Fs.Cache.{brelse}
use neantis.Fs.Buffer.{bread}
use neantis.Fs.Inode.{iput}
use neantis.Fs.Namei.Path.{namei}
use neantis.Strings.{Bytes}
use neantis.Exec.Image.{load_header}
use neantis.Exec.Script.{Script, parse_script}
use neantis.Exec.Ldt.{Mmu, max_arg_page}
use neantis.Exec.Become.{
  ArgPages, Registers, Result, copies, copies_user, exec_error1, exec_error2, count_user,
  load_image,
}

-- The test of the permissions. The owner is compared with the group of the file.
abbrev pub may_run : Task → MInode → Bool
may_run t r =
    let i =
      if t.euid == r.i_gid
      then r.i_mode / 2 ^ 6
      else if t.egid == r.i_gid
      then r.i_mode / 2 ^ 3
      else r.i_mode in
    i % 2 == 1 || not (bit_and r.i_mode 0o111 == 0) && suser t

abbrev pub s_isuid : ℕ
s_isuid = 0o4000

abbrev pub s_isgid : ℕ
s_isgid = 0o2000

module _ ⦃m : Machine⦄ ⦃x : Mmu⦄ where
  -- The kernel's memory around `do_execve`: `buf`, and the variable `local` whose address is passed.
  abbrev pub kernel_memory : Bytes → ℕ → Bytes
  kernel_memory buf local = store32 (λ a. buf (a - x.buf_at)) x.local_at local

  -- The three copies for a script, behind those of the arguments.
  unfoldable pub copy_script : ℕ → Script → ArgPages → Cmd ArgPages
  unfolding copies store32
  copy_script filename s a = do
    a ← copies 1 1 (kernel_memory s.buf filename) x.local_at a
    a ← elim s.i_arg [
      | none ↦ pure a
      | some i_arg ↦ copies 2 1 (kernel_memory s.buf (x.buf_at + i_arg)) x.local_at a
    ]
    copies 2 1 (kernel_memory s.buf (x.buf_at + s.i_name)) x.local_at a

  -- The new number of arguments: those but the first, the file and the interpreter, and the argument
  -- on the line.
  abbrev pub script_argc : ℕ → Script → ℕ
  script_argc argc s = argc + elim s.i_arg [ none ↦ 1 | some _ ↦ 2 ]

  -- The look-up of the interpreter, whose path lies in the memory of the kernel.
  unfoldable pub namei_kernel : (ℕ → Cmd Ptr) → Script → Cmd Ptr
  namei_kernel namei s = do
    fs ← gets λ k. k.fs
    modify λ k. record k { fs = λ a. s.buf (a - x.buf_at) }
    i ← namei (x.buf_at + s.interp)
    modify λ k. record k { fs = fs }
    pure i

  -- From `restart_interp` to the block of the header, which `run` gets with the new identities.
  unfoldable pub check_file : Registers → Ptr → ArgPages → (ℕ → ℕ → Ptr → Cmd Result) → Cmd Result
  unfolding exec_error2 bread
  check_file eip inode a run = do
    r ← gets λ k. k.inode inode
    t ← gets λ k. k.current
    let e_uid = if bit_and r.i_mode s_isuid == 0 then t.euid else r.i_uid
    let e_gid = if bit_and r.i_mode s_isgid == 0 then t.egid else r.i_gid
    if not (s_isreg r.i_mode)
        then exec_error2 eip inode a.page eacces
        else if not (may_run t r)
        then exec_error2 eip inode a.page enoexec
        else do
          b ← bread r.i_dev (r.i_zone 0)
          if b == null then exec_error2 eip inode a.page eacces else run e_uid e_gid b

  -- The second round: `inode` is the interpreter of a script.
  unfoldable pub run_interpreter : Registers → ℕ → ℕ → ℕ → ℕ → Ptr → ArgPages → Cmd Result
  unfolding check_file load_header brelse load_image
  run_interpreter eip argv envp argc envc inode a = check_file eip inode a λ e_uid e_gid b. do
    d ← gets λ k. (k.buffer b).b_data
    brelse b
    load_image eip inode (load_header d) true argv envp argc envc e_uid e_gid a

  -- A script: its interpreter is run, with the script among the arguments.
  unfoldable pub run_script :
      (ℕ → Cmd Ptr) → Registers → ℕ → ℕ → ℕ → ℕ → ℕ → Ptr → Ptr → ArgPages → Cmd Result
  unfolding brelse iput parse_script exec_error1 copies copy_script namei_kernel run_interpreter
  run_script namei eip filename argv envp argc envc inode b a = do
    d ← gets λ k. (k.buffer b).b_data
    brelse b
    iput inode
    elim (parse_script x.strchr d) [
      | none ↦ exec_error1 eip a.page enoexec
      | some s ↦ do
        a ← copies_user envc envp a
        a ← copies_user (argc - 1) (argv + 4) a
        a ← copy_script filename s a
        if a.p == 0 then exec_error1 eip a.page enomem else do
          i ← namei_kernel namei s
          if i == null
              then exec_error1 eip a.page enoent
              else run_interpreter eip argv envp (script_argc argc s) envc i a
    ]

  unfoldable pub run_file :
      (ℕ → Cmd Ptr) → Registers → ℕ → ℕ → ℕ → ℕ → ℕ → Ptr → ArgPages → Cmd Result
  unfolding check_file run_script load_header brelse load_image
  run_file namei eip filename argv envp argc envc inode a = check_file eip inode a λ e_uid e_gid b.
      do
        d ← gets λ k. (k.buffer b).b_data
        if d 0 == b'#' && d 1 == b'!'
            then run_script namei eip filename argv envp argc envc inode b a
            else do
              brelse b
              load_image eip inode (load_header d) false argv envp argc envc e_uid e_gid a

  unfoldable pub do_execve_with : (ℕ → Cmd Ptr) → Registers → ℕ → ℕ → ℕ → Cmd Result
  unfolding count_user run_file
  do_execve_with namei eip filename argv envp = if not (eip 1 % 2 ^ 16 == 0x000f) then panic else do
    inode ← namei filename
    if inode == null then pure (error enoent, eip) else do
      argc ← count_user argv
      envc ← count_user envp
      run_file namei eip filename argv envp argc envc inode
          (record { page = λ _. 0; p = page_size * max_arg_page - 4 })

  unfoldable pub do_execve : Registers → ℕ → ℕ → ℕ → Cmd Result
  unfolding do_execve_with namei
  do_execve = do_execve_with namei
