-- ===== src/Exec/Load/Ends.antt =====
-- fs/exec.c: how `do_execve` ends.
use neantis.Prelude.{
  ℕ, ◌+◌, ◌-◌, ◌*◌, ◌%◌, ◌^◌, ◌≡◌, inl, inr, refl, arith, true, false, not, ◌&&◌, ◌==◌,
  Option-cases,
}
use neantis.Fs.State.{Ptr, null, Kernel}
use neantis.Fs.Run.{ok, Cmd, ◌>>◌, Machine}
use neantis.Fs.Run.Gives.{Gives, returns, panics, Gives-bind, Gives-branch, Gives-then, Gives-ok}
use neantis.Fs.Errno.{error, enoent, eacces, enoexec, enomem}
use neantis.Fs.Buffer.{bread}
use neantis.Fs.Cache.{brelse}
use neantis.Fs.Inode.{iput}
use neantis.Fs.Namei.Path.{namei}
use neantis.Fs.Namei.Walk.{IsNull, namei-IsNull}
use neantis.Exec.Image.{load_header}
use neantis.Exec.Script.{parse_script}
use neantis.Exec.Ldt.{Mmu, max_arg_page}
use neantis.Mm.{page_size}
use neantis.Exec.Become.{ArgPages, Registers, Result, load_image, copies_user, count_user}
use neantis.Fs.Truncate.{s_isreg}
use neantis.Exec.Load.{
  may_run, copy_script, script_argc, namei_kernel, check_file, run_interpreter, run_script,
  run_file, do_execve_with, do_execve,
}
use neantis.Exec.Become.Ends.{
  IsEnd, refused, exec_error1-IsEnd, exec_error2-IsEnd, load_image-IsEnd,
}

module _ ⦃m : Machine⦄ ⦃x : Mmu⦄ where
  check_file-IsEnd :
      (eip : Registers) (inode : Ptr) (a : ArgPages) (run : ℕ → ℕ → Ptr → Cmd Result) (k : Kernel)
      → ((e_uid e_gid : ℕ) (b : Ptr) (k' : Kernel) → Gives (IsEnd eip) (run e_uid e_gid b k'))
      → Gives (IsEnd eip) (check_file eip inode a run k)
  unfolding check_file
  check_file-IsEnd eip inode a run k ends =
      let r = k.inode inode in
      Gives-branch (not (s_isreg r.i_mode)) _ _ k
        (λ _. exec_error2-IsEnd eip inode a.page eacces k (inr (inl refl)))
        λ _.
          Gives-branch (not (may_run k.current r)) _ _ k
            (λ _. exec_error2-IsEnd eip inode a.page enoexec k (inr (inr (inl refl))))
            λ _. Gives-bind (bread r.i_dev (r.i_zone 0) k) λ b k₁.
              Gives-branch (b == null) _ _ k₁
                (λ _. exec_error2-IsEnd eip inode a.page eacces k₁ (inr (inl refl)))
                λ _. ends _ _ b k₁

  run_interpreter-IsEnd :
      (eip : Registers) (argv envp argc envc : ℕ) (inode : Ptr) (a : ArgPages) (k : Kernel)
      → Gives (IsEnd eip) (run_interpreter eip argv envp argc envc inode a k)
  unfolding run_interpreter
  run_interpreter-IsEnd eip argv envp argc envc inode a k =
      check_file-IsEnd eip inode a _ k λ e_uid e_gid b k₁. Gives-bind (brelse b k₁) λ _ k₂.
        load_image-IsEnd eip inode (load_header (k₁.buffer b).b_data) true argv envp argc envc e_uid
          e_gid a k₂

  run_script-IsEnd :
      (namei : ℕ → Cmd Ptr) (eip : Registers) (filename argv envp argc envc : ℕ) (inode b : Ptr)
      (a : ArgPages) (k : Kernel)
      → Gives (IsEnd eip) (run_script namei eip filename argv envp argc envc inode b a k)
  unfolding run_script
  run_script-IsEnd namei eip filename argv envp argc envc inode b a k =
      let d = (k.buffer b).b_data in
      Gives-bind (brelse b k) λ _ k₁. Gives-bind (iput inode k₁) λ _ k₂.
        elim (Option-cases (parse_script x.strchr d)) [
          | inl none_of ↦
              rw none_of (exec_error1-IsEnd eip a.page enoexec k₂ (inr (inr (inl refl))))
          | inr (s, e) ↦ rw e (
              Gives-bind (copies_user envc envp a k₂) λ a₁ k₃.
                Gives-bind (copies_user (argc - 1) (argv + 4) a₁ k₃) λ a₂ k₄.
                  Gives-bind (copy_script filename s a₂ k₄) λ a₃ k₅.
                    Gives-branch (a₃.p == 0) _ _ k₅
                      (λ _. exec_error1-IsEnd eip a₃.page enomem k₅ (inr (inr (inr refl))))
                      λ _. Gives-bind (namei_kernel namei s k₅) λ i k₆.
                        Gives-branch (i == null) _ _ k₆
                          (λ _. exec_error1-IsEnd eip a₃.page enoent k₆ (inl refl))
                          λ _.
                            run_interpreter-IsEnd eip argv envp (script_argc argc s) envc i a₃ k₆)
        ]

  run_file-IsEnd :
      (namei : ℕ → Cmd Ptr) (eip : Registers) (filename argv envp argc envc : ℕ) (inode : Ptr)
      (a : ArgPages) (k : Kernel)
      → Gives (IsEnd eip) (run_file namei eip filename argv envp argc envc inode a k)
  unfolding run_file
  run_file-IsEnd namei eip filename argv envp argc envc inode a k =
      check_file-IsEnd eip inode a _ k λ e_uid e_gid b k₁.
        let d = (k₁.buffer b).b_data in
        Gives-branch (d 0 == b'#' && d 1 == b'!')
          (run_script namei eip filename argv envp argc envc inode b a)
          (brelse b >> load_image eip inode (load_header d) false argv envp argc envc e_uid e_gid a)
          k₁ (λ _. run_script-IsEnd namei eip filename argv envp argc envc inode b a k₁)
          λ _. Gives-bind (brelse b k₁) λ _ k₂.
            load_image-IsEnd eip inode (load_header d) false argv envp argc envc e_uid e_gid a k₂

  do_execve_with-IsEnd :
      (namei : ℕ → Cmd Ptr) (eip : Registers) (filename argv envp : ℕ) (k : Kernel)
      → Gives (IsEnd eip) (do_execve_with namei eip filename argv envp k)
  unfolding do_execve_with
  do_execve_with-IsEnd namei eip filename argv envp k =
      Gives-branch (not (eip 1 % 2 ^ 16 == 0x000f)) _ _ k (λ _. panics)
        λ _. Gives-bind (namei filename k) λ inode k₁.
          Gives-branch (inode == null) _ _ k₁ (λ _. returns (refused enoent (inl refl)))
            λ _. Gives-bind (count_user argv k₁) λ argc k₂.
              Gives-bind (count_user envp k₂) λ envc k₃.
                run_file-IsEnd namei eip filename argv envp argc envc inode
                  (record { page = λ _. 0; p = page_size * max_arg_page - 4 }) k₃

  -- Whatever a look-up of paths gives, and whatever the disks and the other tasks do: whenever
  -- `do_execve` returns, either it returns -ENOENT, -EACCES, -ENOEXEC or -ENOMEM and leaves the
  -- registers of the caller as they were, or it returns 0 and the caller goes on at the entry of an
  -- image whose header has passed the tests for some size of the file, with a new stack pointer; then the end of the code, of the
  -- data and of the heap, and the begin of the stack, are those of that image, and the rest of the last
  -- page of its data is 0.
  pub do_execve_with-ends :
      (namei : ℕ → Cmd Ptr) (eip : Registers) (filename argv envp : ℕ) (k k' : Kernel) (r : Result)
      → do_execve_with namei eip filename argv envp k ≡ ok r k'
      → IsEnd eip r k'
  do_execve_with-ends namei eip filename argv envp k k' r e =
      Gives-ok (do_execve_with-IsEnd namei eip filename argv envp k) e

  no_file :
      (namei : ℕ → Cmd Ptr) (eip : Registers) (filename argv envp : ℕ) (k : Kernel)
      → Gives IsNull (namei filename k)
      → Gives (λ r _. r ≡ (error enoent, eip)) (do_execve_with namei eip filename argv envp k)
  unfolding do_execve_with
  no_file namei eip filename argv envp k none_named =
      Gives-branch (not (eip 1 % 2 ^ 16 == 0x000f)) _ _ k (λ _. panics)
        λ _. Gives-then (namei filename k) none_named λ inode k₁ none_of.
          Gives-branch (inode == null) _ _ k₁ (λ _. returns refl) λ some_of. absurd (ground arith)

  -- Whenever `do_execve` returns, it returns -ENOENT and leaves the registers: no program can be
  -- started.
  do_execve-enoent :
      (eip : Registers) (filename argv envp : ℕ) (k k' : Kernel) (r : Result)
      → do_execve eip filename argv envp k ≡ ok r k'
      → r ≡ (error enoent, eip)
  unfolding do_execve
  do_execve-enoent eip filename argv envp k k' r e =
      Gives-ok (no_file namei eip filename argv envp k (namei-IsNull filename k)) e
