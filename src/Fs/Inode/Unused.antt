-- ===== src/Fs/Inode/Unused.antt =====
-- fs/inode.c: what `get_empty_inode` gives.
use neantis.Prelude.{◌≤◌, ◌≡◌, ◌≢◌}
use neantis.Fs.State.{Ptr, nr_inode, zero_inode, Kernel}
use neantis.Fs.Run.Gives.{Gives}
use neantis.Fs.Run.Keeps.{Keeps}

-- The inode of every open file is in use.
abbrev pub AreHeld : Kernel → Type 0
AreHeld k = (f : Ptr) → (k.file f).f_count ≢ 0 → (k.inode (k.file f).f_inode).i_count ≢ 0

-- Entry `i` of the table is empty but for one holder, and no open file has it.
abbrev pub IsUnused : Ptr → Kernel → Type 0
IsUnused i k =
    (1 ≤ i)
    × (i ≤ nr_inode)
    × (k.inode i ≡ record zero_inode { i_count = 1 })
    × ((f : Ptr) → (k.file f).f_count ≢ 0 → (k.file f).f_inode ≢ i)
