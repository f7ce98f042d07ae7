-- ===== src/Fs/Open/Fails.antt =====
-- fs/open.c: what `sys_open` makes of a path that leads nowhere.
use neantis.Prelude.{
  ℕ, zero, suc, ◌+◌, ◌≤◌, ◌<◌, ◌≡◌, ◌≢◌, refl, inl, inr, arith, leb, ◌==◌, update, Bool-cases,
}
use neantis.Prelude.Words.{u16}
use neantis.Fs.State.{Ptr, null, slot, nr_open, nr_file, Kernel}
use neantis.Fs.Run.{ok, Machine}
use neantis.Fs.Run.Gives.{Gives, returns, Gives-branch, Gives-then, Gives-ok}
use neantis.Fs.Errno.{ℤ, error, enoent, einval}
use neantis.Fs.Namei.Path.{dir_namei}
use neantis.Fs.Namei.Open.{open_namei}
use neantis.Fs.Namei.Walk.{dir_namei-null}
use neantis.Fs.Files.{without, next_free}
use neantis.Fs.Open.{free_file, sys_open_with, sys_open}

-- The search for a free descriptor finds one, or there is none.
module _ (filp : ℕ → Ptr) where
  next_free-full : (n a j : ℕ) → a + n ≤ next_free n filp a → a ≤ j → j < a + n → filp j ≢ null
  unfolding next_free
  next_free-full zero a j full low high = absurd (omega arith)
  next_free-full (suc n) a j full low high = elim (Bool-cases (filp a == null)) [
    | inl free ↦ absurd (ground (arith, full, free))
    | inr taken ↦ elim (Bool-cases (j == a)) [
      | inl same ↦ λ e. absurd (ground (arith, e, same, taken))
      | inr other ↦
          next_free-full n (a + 1) j (ground (arith, full, taken)) (ground (arith, other))
            (omega arith)
    ]
  ]

  next_free-null : (n a : ℕ) → next_free n filp a < a + n → filp (next_free n filp a) ≡ null
  unfolding next_free
  next_free-null zero a some = absurd (omega arith)
  next_free-null (suc n) a some = elim (Bool-cases (filp a == null)) [
    | inl free ↦ ground (arith, free)
    | inr taken ↦ rw taken (next_free-null n (a + 1) (ground (arith, some, taken)))
  ]

-- The same of the search for an entry of the file table.
module _ (k : Kernel) where
  free_file-full :
      (n a j : ℕ) → a + n ≤ free_file n k a → a ≤ j → j < a + n → (k.file (slot j)).f_count ≢ 0
  unfolding free_file
  free_file-full zero a j full low high = absurd (omega arith)
  free_file-full (suc n) a j full low high = elim (Bool-cases ((k.file (slot a)).f_count == 0)) [
    | inl free ↦ absurd (ground (arith, full, free))
    | inr taken ↦ elim (Bool-cases (j == a)) [
      | inl same ↦ λ e. absurd (ground (arith, e, same, taken))
      | inr other ↦
          free_file-full n (a + 1) j (ground (arith, full, taken)) (ground (arith, other))
            (omega arith)
    ]
  ]

  free_file-unused :
      (n a : ℕ) → free_file n k a < a + n → (k.file (slot (free_file n k a))).f_count ≡ 0
  unfolding free_file
  free_file-unused zero a some = absurd (omega arith)
  free_file-unused (suc n) a some = elim (Bool-cases ((k.file (slot a)).f_count == 0)) [
    | inl free ↦ ground (arith, free)
    | inr taken ↦ rw taken (free_file-unused n (a + 1) (ground (arith, some, taken)))
  ]

-- Which of the two errors it is.
pub data Fails (k : Kernel) : ℤ → Type 0 where
  no_descriptor : ((fd : ℕ) → fd < nr_open → k.current.filp fd ≢ null) → Fails k (error einval)
  no_entry : ((n : ℕ) → n < nr_file → (k.file (slot n)).f_count ≢ 0) → Fails k (error einval)
  no_file :
      (fd n : ℕ)
      → fd < nr_open
      → k.current.filp fd ≡ null
      → n < nr_file
      → (k.file (slot n)).f_count ≡ 0
      → Fails k (error enoent)

module _ ⦃m : Machine⦄ where
  open_namei-enoent :
      (path flag mode : ℕ) (k : Kernel)
      → Gives (λ e _. e ≡ (error enoent, null)) (open_namei dir_namei path flag mode k)
  unfolding open_namei
  open_namei-enoent path flag mode k =
      Gives-then (dir_namei path k) (dir_namei-null path k) λ d k₁ none. rw none (returns refl)

  -- Whenever `open` returns, it returns an error, for every path: -EINVAL when the task has no
  -- descriptor left or the file table no entry, and -ENOENT when both have one.
  pub sys_open-error :
      (path flag mode : ℕ) (k k' : Kernel) (r : ℤ) → sys_open path flag mode k ≡ ok r k' → Fails k r
  unfolding sys_open sys_open_with
  sys_open-error path flag mode k k' r e = Gives-ok all e
    where
      all : Gives (λ r _. Fails k r) (sys_open path flag mode k)
      all =
          let fd = next_free nr_open k.current.filp 0 in
          let k₁ : Kernel = record k {
            current = record k.current { close_on_exec = without k.current.close_on_exec fd };
          } in
          let n = free_file nr_file k₁ 0 in
          let k₂ : Kernel = record k₁ {
            current = record k₁.current { filp = update k₁.current.filp fd (slot n) };
            file =
                update k₁.file (slot n)
                  (record (k₁.file (slot n)) { f_count = u16 ((k₁.file (slot n)).f_count + 1) });
          } in
          Gives-branch (leb nr_open fd) _ _ k
            (λ full. returns (
              no_descriptor λ j lt.
                next_free-full k.current.filp nr_open 0 j (ground (arith, full)) (omega arith)
                  (omega arith)))
            λ some.
              Gives-branch (leb nr_file n) _ _ k₁
                (λ full. returns (
                  no_entry λ j lt.
                    free_file-full k nr_file 0 j (ground (arith, full)) (omega arith)
                      (omega arith)))
                λ unused.
                  Gives-then (open_namei dir_namei path flag _ k₂)
                    (open_namei-enoent path flag _ k₂)
                    λ e k₃ none. rw none (
                      returns (
                        no_file fd n (ground (arith, some))
                          (next_free-null k.current.filp nr_open 0 (ground (arith, some)))
                          (ground (arith, unused))
                          (free_file-unused k nr_file 0 (ground (arith, unused)))))
