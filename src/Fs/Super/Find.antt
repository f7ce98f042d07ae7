-- ===== src/Fs/Super/Find.antt =====
-- fs/super.c: what `get_super` finds.
use neantis.Prelude.{
  ℕ, zero, suc, ◌+◌, ◌-◌, ◌≡◌, refl, ◌≢◌, ◌⊎◌, inl, inr, false, arith, ◌==◌, Bool-cases, ◌≤◌, ◌<◌,
  ==_ne,
}
use neantis.Fs.State.{Ptr, null, nr_super, Kernel}
use neantis.Fs.Run.{ok, Machine, wait_while-ok}
use neantis.Fs.Run.Gives.{Gives, returns, stops, Gives-bind, Gives-elim, Gives-ok}
use neantis.Fs.Super.{is_locked, wait_on_super, super_scan, get_super}

-- The entry is for the device, when there is one.
abbrev IsFor : ℕ → Ptr → Kernel → Type 0
IsFor dev s k = (s ≡ null) ⊎ ((k.super_block s).s_dev ≡ dev)

module _ ⦃m : Machine⦄ where
  super_scan-IsFor : (f dev n : ℕ) (k : Kernel) → Gives (IsFor dev) (super_scan f dev n k)
  unfolding super_scan
  super_scan-IsFor f dev zero k = returns (inl refl)
  super_scan-IsFor zero dev (suc n) k = stops
  super_scan-IsFor (suc f) dev (suc n) k =
      let s = nr_super - n in
      Gives-elim ((k.super_block s).s_dev == dev)
        (λ _. Gives-bind (wait_on_super s k) λ _ k'.
          Gives-elim ((k'.super_block s).s_dev == dev) (λ e. returns (inr (ground arith)))
            (λ _. super_scan-IsFor f dev nr_super k'))
        (λ _. super_scan-IsFor (suc f) dev n k)

  -- Whatever the other tasks do while it waits, the entry that `get_super` returns is for the
  -- device, at the moment when it returns.
  get_super-dev :
      (dev : ℕ) (k k' : Kernel) (s : Ptr)
      → get_super dev k ≡ ok s k'
      → s ≢ null
      → (k'.super_block s).s_dev ≡ dev
  unfolding get_super
  get_super-dev dev k k' s e found = either (Gives-ok all e)
    where
      all : Gives (IsFor dev) (get_super dev k)
      all = elim (Bool-cases (dev == 0)) [
        | inl none_there ↦ rw none_there (returns (inl refl))
        | inr real ↦ rw real (super_scan-IsFor m.rounds dev nr_super k)
      ]

      either : IsFor dev s k' → (k'.super_block s).s_dev ≡ dev
      either (inl p) = absurd (found p)
      either (inr p) = p

  wait_on_super-ok :
      (s : Ptr) (k : Kernel)
      → 0 < m.rounds
      → (k.super_block s).s_lock ≡ 0
      → wait_on_super s k ≡ ok tt k
  unfolding wait_on_super
  wait_on_super-ok s k some_rounds free =
      wait_while-ok m.rounds (is_locked s) k some_rounds (ground arith)

  super_scan-total :
      (f dev n : ℕ) (k : Kernel) (s : Ptr)
      → 0 < m.rounds
      → ((t : Ptr) → (k.super_block t).s_lock ≡ 0)
      → nr_super < s + n
      → s ≤ nr_super
      → (k.super_block s).s_dev ≡ dev
      → (t : Ptr) × (super_scan (suc f) dev n k ≡ ok t k) × ((k.super_block t).s_dev ≡ dev)
  unfolding super_scan
  super_scan-total f dev zero k s some_rounds free lo hi e = absurd (omega arith)
  super_scan-total f dev (suc n) k s some_rounds free lo hi e =
      let t = nr_super - n in
      elim (Bool-cases ((k.super_block t).s_dev == dev)) [
        | inl hit ↦ (t, ground (arith, wait_on_super-ok t k some_rounds (free t)), ground arith)
        | inr miss ↦
            rw (miss, super_scan)
              (super_scan-total f dev n k s some_rounds free (later n s lo hi miss e) hi e)
      ]
    where
      later :
          (n s : ℕ)
          → nr_super < s + suc n
          → s ≤ nr_super
          → ((k.super_block (nr_super - n)).s_dev == dev) ≡ false
          → (k.super_block s).s_dev ≡ dev
          → nr_super < s + n
      later n s lo hi miss e = ground arith

  -- While no entry is locked, `get_super` finds an entry for every device that has one, without
  -- waiting and without changing anything.
  pub get_super-total :
      (dev : ℕ) (k : Kernel) (s : Ptr)
      → 0 < m.rounds
      → ((t : Ptr) → (k.super_block t).s_lock ≡ 0)
      → dev ≢ 0
      → 1 ≤ s
      → s ≤ nr_super
      → (k.super_block s).s_dev ≡ dev
      → (t : Ptr) × (get_super dev k ≡ ok t k) × ((k.super_block t).s_dev ≡ dev)
  unfolding get_super
  get_super-total dev k s some_rounds free real lo hi e =
      rw (==_ne dev 0 real) (some_round m.rounds some_rounds)
    where
      some_round :
          (r : ℕ)
          → 0 < r
          → (t : Ptr) × (super_scan r dev nr_super k ≡ ok t k) × ((k.super_block t).s_dev ≡ dev)
      some_round zero h = absurd (omega arith)
      some_round (suc f) h = super_scan-total f dev nr_super k s some_rounds free (omega arith) hi e
