-- ===== src/Wait.antt =====
-- include/sys/wait.h: what the status of a child says.
use neantis.Prelude.{ℕ, ◌/◌, ◌%◌, ◌^◌, Bool, ltb, ◌==◌}
use neantis.Prelude.Words.{sub32}

-- `WIFEXITED`, of a word of 32 bits like the others
abbrev pub if_exited : ℕ → Bool
if_exited s = s % 2 ^ 8 == 0

-- `WIFSTOPPED`
abbrev pub if_stopped : ℕ → Bool
if_stopped s = s % 2 ^ 8 == 0x7f

-- `WEXITSTATUS`
abbrev pub exit_status : ℕ → ℕ
exit_status s = s / 2 ^ 8 % 2 ^ 8

-- `WTERMSIG`
abbrev pub term_signal : ℕ → ℕ
term_signal s = s % 2 ^ 7

-- `WSTOPSIG`
abbrev pub stop_signal : ℕ → ℕ
stop_signal s = s / 2 ^ 8 % 2 ^ 8

-- `WIFSIGNALED`
abbrev pub if_signaled : ℕ → Bool
if_signaled s = ltb (sub32 s 1 % 2 ^ 16) 0xff
