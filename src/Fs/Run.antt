-- ===== src/Fs/Run.antt =====
-- How a piece of the kernel runs: a command on the state that returns, panics, or runs out of the
-- rounds that its loops are given. What other tasks and the drivers do is a parameter.
pub mod Gives
pub mod Does
pub mod Keeps
use neantis.Prelude.{
  ℕ, zero, suc, arith, ◌<◌, ◌+◌, ◌≡◌, refl, Bool, true, false, ◌==◌, if◌then◌else◌, update,
}
use neantis.Fs.State.{Ptr, BufferHead, MInode, OpenFile, SuperBlock, Task, Kernel}

pub data Outcome (A : Type 0) : Type 0 where
  ok : A → Kernel → Outcome A
  panic : Kernel → Outcome A
  out_of_fuel : Outcome A

abbrev pub Cmd : Type 0 → Type 0
Cmd A = Kernel → Outcome A

abbrev pub Proc : Type 0
Proc = Cmd (Unit {0})

abbrev pub pure : {A : Type 0} → A → Cmd A
pure = ok

module _ {A B : Type 0} where
  abbrev pub and_then : Outcome A → (A → Cmd B) → Outcome B
  and_then (ok a k) f = f a k
  and_then (panic k) f = panic k
  and_then out_of_fuel f = out_of_fuel

  infixl 5 ◌>>=◌ ◌>>◌
  abbrev pub ◌>>=◌ : Cmd A → (A → Cmd B) → Cmd B
  m >>= f = λ k. and_then (m k) f

  abbrev pub ◌>>◌ : Cmd A → Cmd B → Cmd B
  m >> n = m >>= λ _. n

-- What the files of the kernel call and this repository does not have: the scheduler, the block
-- driver and the floppy driver. `sleep_on` is what the state becomes until the task runs again. `after_modes` is the memory behind the literal of `ACC_MODE`, which that
-- macro reads past its end. `rounds` bounds every loop that nothing else bounds.
pub record Machine : Type 0 where
  pub sleep_on : Kernel → Kernel
  pub ll_rw_block : ℕ → Ptr → Kernel → Kernel
  pub floppy_change : ℕ → Kernel → Bool
  pub after_modes : ℕ → ℕ
  pub rounds : ℕ

abbrev pub gets : {A : Type 0} → (Kernel → A) → Cmd A
gets f k = ok (f k) k

abbrev pub modify : (Kernel → Kernel) → Proc
modify f k = ok tt (f k)

abbrev pub set_buffer : Ptr → (BufferHead → BufferHead) → Proc
set_buffer b f k = ok tt (record k { buffer = update k.buffer b (f (k.buffer b)) })

abbrev pub set_inode : Ptr → (MInode → MInode) → Proc
set_inode i f k = ok tt (record k { inode = update k.inode i (f (k.inode i)) })

abbrev pub set_file : Ptr → (OpenFile → OpenFile) → Proc
set_file f g k = ok tt (record k { file = update k.file f (g (k.file f)) })

abbrev pub set_super : Ptr → (SuperBlock → SuperBlock) → Proc
set_super s f k = ok tt (record k { super_block = update k.super_block s (f (k.super_block s)) })

abbrev pub set_task : (Task → Task) → Proc
set_task f k = ok tt (record k { current = f k.current })

abbrev pub when : Bool → Proc → Proc
when b m = if b then m else pure tt

-- `while(busy) sleep_on(...)`, with the rounds that it is given
unfoldable pub wait_while : ⦃m : Machine⦄ → ℕ → (Kernel → Bool) → Proc
wait_while zero busy k = out_of_fuel
wait_while ⦃m⦄ (suc n) busy k = elim (busy k) [
  | true ↦ wait_while n busy (m.sleep_on k)
  | false ↦ ok tt k
]

-- `for(i = a; i < a + n; i++) body`
unfoldable pub for_range : ℕ → ℕ → (ℕ → Proc) → Proc
for_range zero i body k = ok tt k
for_range (suc n) i body k = and_then (body i k) (λ _. for_range n (i + 1) body)

-- With a round to spend, a wait for what is not busy ends at once.
pub wait_while-ok :
    ⦃m : Machine⦄ (n : ℕ) (busy : Kernel → Bool) (k : Kernel)
    → 0 < n
    → busy k ≡ false
    → wait_while n busy k ≡ ok tt k
unfolding wait_while
wait_while-ok zero busy k h e = absurd (omega arith)
wait_while-ok (suc n) busy k h e = rw (e, wait_while)
