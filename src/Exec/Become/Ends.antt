-- ===== src/Exec/Become/Ends.antt =====
-- fs/exec.c: how the later half of `do_execve` and its exits end.
use neantis.Prelude.{
  ℕ, zero, suc, ◌+◌, ◌*◌, ◌/◌, ◌%◌, ◌^◌, ◌≤◌, ◌<◌, ◌≡◌, ◌≢◌, ◌⊎◌, inl, inr, refl, arith, Bool,
  false, not, ◌||◌, ◌==◌, update, Bool-cases,
}
use neantis.Prelude.Words.{u32}
use neantis.Fs.State.{Ptr, block_size, Kernel}
use neantis.Fs.Run.{Machine}
use neantis.Fs.Run.Gives.{Gives, returns, Gives-bind, Gives-branch}
use neantis.Fs.Errno.{error, success, enoent, eacces, enoexec, enomem}
use neantis.Strings.{Bytes}
use neantis.Exec.Image.{Header, is_refused, text_offset}
use neantis.Exec.Ldt.{Mmu}
use neantis.Exec.Become.{
  ArgPages, Registers, Result, clear_tail, set_program, exec_error1, exec_error2, change_program,
  become, load_image, copies_user,
}

-- The task `k.current` has the program of header `ex` and the stack pointer `sp`.
pub record HasProgram (ex : Header) (sp : ℕ) (k : Kernel) : Type 0 where
  pub end_code_at : k.current.end_code ≡ ex.a_text
  pub end_data_at : k.current.end_data ≡ u32 (ex.a_data + ex.a_text)
  pub brk_at : k.current.brk ≡ u32 (ex.a_bss + k.current.end_data)
  pub stack_at : k.current.start_stack ≡ sp / 2 ^ 12 * 2 ^ 12
  pub tail_clear :
      (y : ℕ) → k.current.end_data ≤ y → y < (k.current.end_data + 4095) / 4096 * 4096 → k.fs y ≡ 0

-- The errors of the call.
abbrev pub IsRefusal : ℕ → Type 0
IsRefusal e = (e ≡ enoent) ⊎ ((e ≡ eacces) ⊎ ((e ≡ enoexec) ⊎ (e ≡ enomem)))

-- Either the call fails and leaves the registers, or the task goes on at the entry of an image that
-- passes the tests.
pub data IsEnd (eip : Registers) : Result → Kernel → Type 0 where
  refused : (e : ℕ) {k : Kernel} → IsRefusal e → IsEnd eip (error e, eip) k
  entered :
      (ex : Header) (size sp : ℕ) {k : Kernel}
      → is_refused ex size ≡ false
      → text_offset ex ≡ block_size
      → HasProgram ex sp k
      → IsEnd eip (success, update (update eip 0 ex.a_entry) 3 sp) k

clear_tail-same : (n i y : ℕ) (fs : Bytes) → y < i → clear_tail n i fs y ≡ fs y
unfolding clear_tail
clear_tail-same zero i y fs lt = refl
clear_tail-same (suc n) i y fs lt = ground (arith, clear_tail-same n (i + 1) y (update fs i 0))

clear_tail_lem :
    (n i y : ℕ) (fs : Bytes)
    → (i + 4095) / 4096 * 4096 ≤ i + n
    → i ≤ y
    → y < (i + 4095) / 4096 * 4096
    → clear_tail n i fs y ≡ 0
unfolding clear_tail
clear_tail_lem zero i y fs room from to = absurd (omega arith)
clear_tail_lem (suc n) i y fs room from to =
    let up : (i % 4096 ≢ 0) → (i + 1 + 4095) / 4096 * 4096 ≡ (i + 4095) / 4096 * 4096 =
      λ h. omega arith in
    elim (Bool-cases (i % 2 ^ 12 == 0)) [
      | inl e ↦ absurd (ground arith)
      | inr e ↦ elim (Bool-cases (y == i)) [
        | inl at ↦ ground (arith, clear_tail-same n (i + 1) y (update fs i 0))
        | inr away ↦ ground (arith, up, clear_tail_lem n (i + 1) y (update fs i 0))
      ]
    ]

set_program-HasProgram :
    (eip : Registers) (ex : Header) (e_uid e_gid sp size : ℕ) (k : Kernel)
    → is_refused ex size ≡ false
    → text_offset ex ≡ block_size
    → Gives (IsEnd eip) (set_program eip ex e_uid e_gid sp k)
unfolding set_program
set_program-HasProgram eip ex e_uid e_gid sp size k fits offset = returns (
    entered ex size sp fits offset (record {
      end_code_at = refl;
      end_data_at = refl;
      brk_at = refl;
      stack_at = refl;
      tail_clear = λ y from to.
          clear_tail_lem (2 ^ 12) (u32 (ex.a_data + ex.a_text)) y k.fs (omega arith) from to;
    }))

module _ ⦃m : Machine⦄ where
  pub exec_error1-IsEnd :
      (eip : Registers) (page : ℕ → ℕ) (e : ℕ) (k : Kernel)
      → IsRefusal e
      → Gives (IsEnd eip) (exec_error1 eip page e k)
  unfolding exec_error1
  exec_error1-IsEnd eip page e k known = Gives-bind _ λ _ k'. returns (refused e known)

  pub exec_error2-IsEnd :
      (eip : Registers) (inode : Ptr) (page : ℕ → ℕ) (e : ℕ) (k : Kernel)
      → IsRefusal e
      → Gives (IsEnd eip) (exec_error2 eip inode page e k)
  unfolding exec_error2
  exec_error2-IsEnd eip inode page e k known =
      Gives-bind _ λ _ k'. exec_error1-IsEnd eip page e k' known

module _ ⦃m : Machine⦄ ⦃x : Mmu⦄ where
  become-IsEnd :
      (eip : Registers) (inode : Ptr) (ex : Header) (argc envc e_uid e_gid size : ℕ) (a : ArgPages)
      (k : Kernel)
      → is_refused ex size ≡ false
      → text_offset ex ≡ block_size
      → Gives (IsEnd eip) (become eip inode ex argc envc e_uid e_gid a k)
  unfolding become
  become-IsEnd eip inode ex argc envc e_uid e_gid size a k fits offset =
      Gives-bind (change_program inode ex argc envc a k)
        λ sp k'. set_program-HasProgram eip ex e_uid e_gid sp size k' fits offset

  pub load_image-IsEnd :
      (eip : Registers) (inode : Ptr) (ex : Header) (sh_bang : Bool)
      (argv envp argc envc e_uid e_gid : ℕ) (a : ArgPages) (k : Kernel)
      → Gives (IsEnd eip) (load_image eip inode ex sh_bang argv envp argc envc e_uid e_gid a k)
  unfolding load_image
  load_image-IsEnd eip inode ex sh_bang argv envp argc envc e_uid e_gid a k =
      let size = (k.inode inode).i_size in
      Gives-branch (is_refused ex size || not (text_offset ex == block_size)) _ _ k
        (λ _. exec_error2-IsEnd eip inode a.page enoexec k (inr (inr (inl refl))))
        λ passed.
          let fits : is_refused ex size ≡ false = ground arith in
          let offset : text_offset ex ≡ block_size = ground arith in
          Gives-branch sh_bang _ _ k
            (λ _. become-IsEnd eip inode ex argc envc e_uid e_gid size a k fits offset)
            λ _. Gives-bind (copies_user envc envp a k) λ b k₁.
              Gives-bind (copies_user argc argv b k₁) λ c k₂.
                Gives-branch (c.p == 0) _ _ k₂
                  (λ _. exec_error2-IsEnd eip inode c.page enomem k₂ (inr (inr (inr refl))))
                  λ _. become-IsEnd eip inode ex argc envc e_uid e_gid size c k₂ fits offset
