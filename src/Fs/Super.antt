-- ===== src/Fs/Super.antt =====
-- fs/super.c: finding, locking and releasing the entries of the table of mounted file systems.
pub mod Find
use neantis.Prelude.{ℕ, zero, suc, ◌+◌, ◌-◌, Bool, true, false, not, ◌==◌, if◌then◌else◌, update}
use neantis.Fs.State.{Ptr, null, slot, nr_super, SuperBlock, Kernel}
use neantis.Fs.Run.{
  Outcome, ok, panic, out_of_fuel, Cmd, Proc, pure, and_then, ◌>>=◌, ◌>>◌, Machine, gets, modify,
  set_super, wait_while,
}

abbrev is_locked : Ptr → Kernel → Bool
is_locked s k = not ((k.super_block s).s_lock == 0)

module _ ⦃m : Machine⦄ where
  unfoldable pub wait_on_super : Ptr → Proc
  unfolding wait_while
  wait_on_super s = wait_while m.rounds (is_locked s)

  unfoldable pub lock_super : Ptr → Proc
  unfolding wait_while
  lock_super s = do wait_while m.rounds (is_locked s); set_super s λ r. record r { s_lock = 1 }

  -- `wake_up` changes the scheduler's lists only.
  unfoldable pub free_super : Ptr → Proc
  free_super s = set_super s λ r. record r { s_lock = 0 }

  -- The scan of `get_super`, with `n` entries left before the end of the table. A device that is
  -- found is looked at again after the wait, and the scan starts over if it has changed; `f` bounds
  -- how often it starts over.
  unfoldable pub super_scan : ℕ → ℕ → ℕ → Cmd Ptr
  unfolding wait_on_super
  super_scan f dev zero k = ok null k
  super_scan zero dev (suc n) k = out_of_fuel
  super_scan (suc f) dev (suc n) k =
      let s = nr_super - n in
      elim ((k.super_block s).s_dev == dev) [
        | true ↦ and_then (wait_on_super s k) λ _ k'. elim ((k'.super_block s).s_dev == dev) [
          | true ↦ ok s k'
          | false ↦ super_scan f dev nr_super k'
        ]
        | false ↦ super_scan (suc f) dev n k
      ]

  unfoldable pub get_super : ℕ → Cmd Ptr
  unfolding super_scan
  get_super dev = if dev == 0 then pure null else super_scan m.rounds dev nr_super
