-- ===== src/Exec/Tests/Loads.antt =====
-- The theorems about change_ldt and do_execve of fs/exec.c at concrete inputs.
use neantis.Prelude.{
  ℕ, arith, [], ◌∷◌, ◌+◌, ◌*◌, ◌-◌, ◌≡◌, refl, ◌==◌, if◌then◌else◌, none, update, leb, ltb, ◌&&◌,
  ◌<◌, zero, suc, List, ◌⊎◌,
}
use neantis.Fs.Bytes.{load32}
use neantis.Strings.Copies.{stop, more}
use neantis.Fs.State.{Ptr, zero_inode, Kernel}
use neantis.Fs.Run.{ok, Cmd}
use neantis.Fs.Errno.{error, success, enoent}
use neantis.Fs.Tests.{quiet, small, buffers, inodes, state}
use neantis.Segments.{get_base}
use neantis.Exec.Image.{is_refused}
use neantis.Exec.Ldt.{Mmu, data_limit, change_ldt}
use neantis.Exec.Pages.{PutsPages, IsLaidOut, change_ldt-IsLaidOut}
use neantis.Exec.Become.{Registers}
use neantis.Exec.Become.Ends.{IsEnd}
use neantis.Exec.Copies.{IsFull}
use neantis.Exec.Copies.Arguments.{IsArgument, total}
use neantis.Exec.Frames.{HasArguments, create_tables-copy_strings}
use neantis.Exec.Load.{do_execve_with, do_execve}
use neantis.Exec.Load.Ends.{do_execve_with-ends}
use neantis.Exec.{Args, no_page, copied, copy_strings}
use neantis.Exec.Tests.{stack, empty_machine}

-- A page shows where it is put, relative to the base of the data segment.
abbrev shows : ℕ → ℕ → Kernel → Kernel
shows page address k =
    let base = get_base (k.current.ldt 2) in
    record k {
      fs = λ y.
          if leb address (base + y) && ltb (base + y) (address + 4096)
          then k.memory.phys (page + (base + y - address))
          else k.fs y;
    }

instance abbrev plain : Mmu
plain = record {
  put_page = λ page address k. ok tt (shows page address k);
  free_page_tables = λ from size k. ok tt k;
  strchr = λ mem s c. none;
  buf_at = 0x1000;
  local_at = 0x2000;
}

-- One page, at 0x200000, is taken for the arguments.
abbrev one_page : ℕ → ℕ
one_page i = if i == 31 then 0x200000 else 0

puts : (page : ℕ → ℕ) → PutsPages page
puts page p o k room =
    let base = get_base (k.current.ldt 2) in
    (
      shows p (base + o) k,
      refl,
      record {
        current_same = refl;
        pages_same = λ i j lt some_page small_j. refl;
        put_at = λ j lt. shown base o j p k lt;
        fs_same = λ y away. ground arith;
      },
    )
  where
    shown :
        (base o j p : ℕ) (k : Kernel)
        → j < 4096
        → (if leb (base + o) (base + (o + j)) && ltb (base + (o + j)) (base + o + 4096)
            then k.memory.phys (p + (base + (o + j) - (base + o)))
            else k.fs (o + j))
          ≡ k.memory.phys (p + j)
    shown base o j p k lt =
        let e : base + (o + j) - (base + o) ≡ j = omega arith in ground (arith, e)

-- A task whose descriptors count in pages.
abbrev paged : Kernel
paged = record small { current = record small.current { ldt = λ i p. if p == 6 then 0xc0 else 0 } }

change_ldt-IsLaidOut_example :
    (k' : Kernel) × (change_ldt 5000 one_page paged ≡ ok data_limit k')
    × IsLaidOut 5000 one_page paged k'
unfolding get_base
change_ldt-IsLaidOut_example =
    change_ldt-IsLaidOut 5000 one_page paged (puts one_page) (omega arith, omega arith)
      (omega arith, omega arith) (omega arith) (omega arith) (omega arith)

-- The first block of inode 3 is a header with 16 bytes of code, and the entry 5.
abbrev runnable : Kernel
runnable = record small {
  inode = update inodes 3 (record zero_inode {
    i_mode = 0o100755;
    i_size = 2000;
    i_zone = (λ z. 2);
    i_dev = 1;
    i_num = 7;
    i_count = 2;
  });
  buffer = update buffers 1 (record (buffers 1) {
    b_data = λ p.
        if p == 0
        then 11
        else if p == 1
        then 1
        else if p == 4
        then 16
        else if p == 20
        then 5
        else 0;
  });
}

abbrev to_file : ℕ → Cmd Ptr
to_file path k = ok 3 k

-- The caller's code segment stands in word 1.
abbrev registers : Registers
registers i = if i == 1 then 15 else 0

abbrev entered_registers : Registers
entered_registers = update (update registers 0 5) 3 0x3ffffe8

runs :
    do_execve_with to_file registers 0 0 0 runnable
    ≡ ok (success, entered_registers) (state (do_execve_with to_file registers 0 0 0 runnable))
unfolding do_execve_with is_refused
runs = refl

do_execve_with-ends_example :
    IsEnd registers
      (success, entered_registers)
      (state (do_execve_with to_file registers 0 0 0 runnable))
do_execve_with-ends_example =
    do_execve_with-ends to_file registers 0 0 0 runnable
      (state (do_execve_with to_file registers 0 0 0 runnable)) (success, entered_registers) runs

not_found :
    do_execve registers 0 0 0 small
    ≡ ok (error enoent, registers) (state (do_execve registers 0 0 0 small))
unfolding do_execve
not_found = refl

-- The task calls with one argument and no environment.
abbrev caller : Kernel
caller = record paged { fs = stack; memory = empty_machine }

abbrev one_string : ℕ → List ℕ
one_string i = b'a' ∷ b'b' ∷ []

named_string : (i : ℕ) → i < 1 → IsArgument 5 stack stack 2000 i (one_string i)
unfolding load32
named_string zero lt = record {
  named = omega arith;
  spelt = more refl (omega arith) (more refl (omega arith) (stop refl));
  short = omega arith;
}
named_string (suc i) lt = absurd (omega arith)

create_tables-copy_strings_example :
    let first = copy_strings 5 0 0 stack stack 0 (λ _. 0) (4096 * 32 - 4) empty_machine in
    ((a : Args) × (first ≡ no_page a) × IsFull a)
    ⊎ ((a : Args) × (first ≡ copied a)
        × HasArguments 5 1 0 5000 2000 stack one_string (λ _. []) caller a)
unfolding get_base total
create_tables-copy_strings_example =
    create_tables-copy_strings 5 1 0 2000 0 5000 stack one_string (λ _. []) caller named_string
      (λ i lt. absurd (omega arith)) (omega arith) puts (omega arith, omega arith)
      (omega arith, omega arith) (omega arith) (omega arith) (omega arith)
