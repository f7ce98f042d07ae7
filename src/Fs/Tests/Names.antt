-- ===== src/Fs/Tests/Names.antt =====
-- Paths and directory entries: the theorems at a concrete state.
use neantis.Prelude.{◌%◌, ◌<◌, ◌≡◌, ◌↔◌, refl, arith, true, false}
use neantis.Fs.State.{null, block_size, Kernel}
use neantis.Fs.Run.{ok}
use neantis.Fs.Namei.{may_exec, may_write, permission, dir_entry_size, Found, find_entry}
use neantis.Fs.Namei.Entries.{IsEntry, find_entry-IsEntry}
use neantis.Fs.Namei.Access.{IsAllowed, permission-IsAllowed}
use neantis.Fs.Namei.Path.{namei}
use neantis.Fs.Namei.Walk.{namei-null}
use neantis.Fs.Tests.{quiet, small, state}

-- The walk goes into the directory, finds the file, and loses it.
walks : namei 0 small ≡ ok null (state (namei 0 small))
unfolding namei
walks = refl

namei-null_example : null ≡ null
namei-null_example = namei-null 0 small (state (namei 0 small)) null walks

-- The name `a` at address 1 is the second entry of the block in buffer 1.
abbrev second : Found
second = record { dir = 1; buf = 1; entry = 16 }

finds_entry : find_entry 1 1 1 small ≡ ok second (state (find_entry 1 1 1 small))
unfolding find_entry
finds_entry = refl

find_entry-IsEntry_example :
    let k = state (find_entry 1 1 1 small) in
    IsEntry k.fs 1 1 (k.buffer 1).b_data 16 × (16 < block_size) × (16 % dir_entry_size ≡ 0)
find_entry-IsEntry_example =
    find_entry-IsEntry 1 1 1 small (state (find_entry 1 1 1 small)) second finds_entry
      (λ e. omega (arith, e))

-- A task of another user and another group.
abbrev stranger : Kernel
stranger = record small { current = record small.current { euid = 1; egid = 1 } }

lets_in : permission stranger 1 may_exec ≡ true
unfolding permission
lets_in = refl

keeps_out : permission stranger 1 may_write ≡ false
unfolding permission
keeps_out = refl

permission-IsAllowed_example :
    (permission stranger 1 may_write ≡ true) ↔ IsAllowed stranger 1 may_write
permission-IsAllowed_example = permission-IsAllowed stranger 1 may_write (omega arith)
