-- ===== src/Fs/Itable/Waits.antt =====
-- fs/inode.c: a wait for an inode that nobody has locked.
use neantis.Prelude.{◌<◌, ◌≡◌, arith}
use neantis.Fs.State.{Ptr, Kernel}
use neantis.Fs.Run.{ok, Machine, wait_while-ok}
use neantis.Fs.Itable.{wait_on_inode, is_locked}

pub wait_on_inode-ok :
    ⦃m : Machine⦄ (i : Ptr) (k : Kernel)
    → 0 < m.rounds
    → (k.inode i).i_lock ≡ 0
    → wait_on_inode i k ≡ ok tt k
unfolding wait_on_inode
wait_on_inode-ok ⦃m⦄ i k some_rounds free =
    wait_while-ok m.rounds (is_locked i) k some_rounds (ground arith)
