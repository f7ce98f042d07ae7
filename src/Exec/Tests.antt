-- ===== src/Exec/Tests.antt =====
-- The theorems about fs/exec.c at concrete inputs: a stack with the string `ab` and the table of one argument.
mod Loads
use neantis.Prelude.{
  ℕ, arith, [], ◌∷◌, ◌≤◌, ◌+◌, ◌*◌, ◌-◌, ◌≡◌, refl, ◌==◌, if◌then◌else◌, some, none, Option,
}
use neantis.Mm.{scan, Memory}
use neantis.Fs.Bytes.{load32}
use neantis.Strings.{Bytes}
use neantis.Strings.Copies.{stop, more}
use neantis.Exec.Tables.{next_string, no_more, IsFrame, create_tables-IsFrame}
use neantis.Fs.Tests.{quiet}
use neantis.Exec.{count, create_tables, Copied, copied, copy_strings}

-- `ab` at 1000, and its address at 2000.
abbrev pub stack : Bytes
stack = λ a.
    if a == 1000
    then b'a'
    else if a == 1001
    then b'b'
    else if a == 2000
    then 232
    else if a == 2001
    then 3
    else 0

one_argument : count 5 stack 2000 ≡ some 1
unfolding count
one_argument = refl

-- The word of `argv[0]`.
abbrev first_word : Option (ℕ × Bytes) → ℕ
first_word none = 0
first_word (some (sp, fs)) = load32 fs (sp + 12)

tables_made : first_word (create_tables 5 stack 1000 1 0) ≡ 1000
unfolding create_tables load32
tables_made = refl

abbrev pub empty_machine : Memory
empty_machine = record {
  high_memory = 0x1000000;
  mem_map = λ i. if i == 3839 then 0 else 100;
  phys = λ a. 0;
}

-- The byte at the new `p`.
abbrev last_byte : Copied → ℕ
last_byte (copied a) = a.memory.phys (a.pag + a.offset)
last_byte _ = 0

strings_copied :
    last_byte (copy_strings 5 0 1 stack stack 2000 (λ i. 0) (4096 * 32 - 4) empty_machine) ≡ b'a'
unfolding copy_strings scan
strings_copied = refl
