-- ===== src/Fs/Files/Dup.antt =====
-- fs/fcntl.c and fs/open.c: a descriptor is copied, and closed.
use neantis.Prelude.{
  ℕ, zero, suc, ◌+◌, ◌-◌, ◌^◌, ◌≤◌, ◌<◌, ◌≡◌, ◌≢◌, ap, sym, ◌∙◌, inl, inr, false, arith, leb, ◌==◌,
  update, update_self, update-update, update-id, Bool-cases, ==_ne,
}
use neantis.Prelude.Words.{u16, sub16}
use neantis.Fs.State.{Ptr, null, nr_open, OpenFile, Kernel}
use neantis.Fs.Run.{ok, Machine}
use neantis.Fs.Errno.{pos, error, success, emfile}
use neantis.Fs.Files.{without, next_free, dupfd, sys_close}

module _ (filp : ℕ → Ptr) where
  next_free-least :
      (n arg j : ℕ)
      → arg ≤ j
      → j < arg + n
      → filp j ≡ null
      → (arg ≤ next_free n filp arg)
        × (next_free n filp arg ≤ j)
        × (filp (next_free n filp arg) ≡ null)
  unfolding next_free
  next_free-least zero arg j low high free = absurd (omega arith)
  next_free-least (suc n) arg j low high free = elim (Bool-cases (filp arg == null)) [
    | inl here ↦ rw here (omega arith, omega arith, ground arith)
    | inr taken ↦ ground (arith, next_free-least n (arg + 1) j)
  ]

  next_free-none :
      (n arg : ℕ)
      → ((j : ℕ) → arg ≤ j → j < arg + n → filp j ≢ null)
      → next_free n filp arg ≡ arg + n
  unfolding next_free
  next_free-none zero arg all = omega arith
  next_free-none (suc n) arg all =
      rw (==_ne (filp arg) null (all arg (omega arith) (omega arith)))
        (next_free-none n (arg + 1) (λ j low high. all j (omega arith) (omega arith)) ∙ omega arith)

in_range : (fd : ℕ) → fd < nr_open → leb nr_open fd ≡ false
in_range fd h = ground arith

-- The state after descriptor `fd` has been copied to `new`.
abbrev copied : ℕ → ℕ → Kernel → Kernel
copied fd new k =
    let f = k.current.filp fd in
    record k {
      current = record k.current {
        close_on_exec = without k.current.close_on_exec new;
        filp = update k.current.filp new f;
      };
      file = update k.file f (record (k.file f) { f_count = u16 ((k.file f).f_count + 1) });
    }

-- `dupfd` of an open descriptor returns a free one, none of the free ones from `arg` on is smaller,
-- it stands for the same open file from then on, which counts one user more, and is not closed on
-- exec. Nothing else changes.
dupfd_lem :
    (fd arg j : ℕ) (k : Kernel)
    → fd < nr_open
    → k.current.filp fd ≢ null
    → arg ≤ j
    → j < nr_open
    → k.current.filp j ≡ null
    → (new : ℕ) × (arg ≤ new)
      × (new ≤ j)
      × (k.current.filp new ≡ null)
      × (dupfd fd arg k ≡ ok (pos new) (copied fd new k))
unfolding dupfd
dupfd_lem fd arg j k real held low high free =
    let new = next_free (nr_open - arg) k.current.filp arg in
    let (p, q, r) = next_free-least k.current.filp (nr_open - arg) arg j low (omega arith) free in
    (
      new,
      p,
      q,
      r,
      rw (
        in_range fd real,
        ==_ne (k.current.filp fd) null held,
        in_range arg (omega arith),
        in_range new (omega arith),
      ),
    )

-- With no free descriptor from `arg` on, `dupfd` fails with EMFILE and changes nothing.
dupfd-full :
    (fd arg : ℕ) (k : Kernel)
    → fd < nr_open
    → k.current.filp fd ≢ null
    → arg < nr_open
    → ((j : ℕ) → arg ≤ j → j < nr_open → k.current.filp j ≢ null)
    → dupfd fd arg k ≡ ok (error emfile) k
unfolding dupfd
dupfd-full fd arg k real held low all =
    let e : next_free (nr_open - arg) k.current.filp arg ≡ nr_open =
      next_free-none k.current.filp (nr_open - arg) arg (λ j from to. all j from (omega arith))
      ∙ omega arith in
    rw (in_range fd real, ==_ne (k.current.filp fd) null held, in_range arg low, e)

abbrev less_one : OpenFile → OpenFile
less_one f = record f { f_count = sub16 f.f_count 1 }

-- The state after one of several users of an open file has closed descriptor `fd`.
abbrev closed : ℕ → Kernel → Kernel
closed fd k =
    let f = k.current.filp fd in
    record k {
      current = record k.current {
        close_on_exec = without k.current.close_on_exec fd;
        filp = update k.current.filp fd null;
      };
      file = update k.file f (less_one (k.file f));
    }

module _ ⦃m : Machine⦄ where
  sys_close_lem :
      (fd : ℕ) (k : Kernel)
      → fd < nr_open
      → k.current.filp fd ≢ null
      → 1 < (k.file (k.current.filp fd)).f_count
      → (k.file (k.current.filp fd)).f_count < 2 ^ 16
      → sys_close fd k ≡ ok success (closed fd k)
  unfolding sys_close
  sys_close_lem fd k small held shared few =
      let c = (k.file (k.current.filp fd)).f_count in
      rw (
        in_range fd small,
        ==_ne (k.current.filp fd) null held,
        ==_ne c 0 (omega arith),
        ==_ne (sub16 c 1) 0 (omega arith),
      )

  -- The copy is closed: the descriptors and the open files are as before.
  sys_close-copied :
      (fd new : ℕ) (k : Kernel)
      → new < nr_open
      → k.current.filp fd ≢ null
      → k.current.filp new ≡ null
      → 0 < (k.file (k.current.filp fd)).f_count
      → (k.file (k.current.filp fd)).f_count < 2 ^ 16 - 1
      → (k' : Kernel) × (sys_close new (copied fd new k) ≡ ok success k')
        × (k'.current.filp ≡ k.current.filp)
        × (k'.file ≡ k.file)
  sys_close-copied fd new k small held free used few =
      let F = k.current.filp fd in
      let more = record (k.file F) { f_count = u16 ((k.file F).f_count + 1) } in
      let files = update k.file F more in
      let same : update k.current.filp new F new ≡ F = update_self k.current.filp new F in
      let counted : files (update k.current.filp new F new) ≡ more =
        ap files same ∙ update_self k.file F more in
      (
        closed new (copied fd new k),
        sys_close_lem new (copied fd new k) small (λ e. held (sym same ∙ e))
            (omega (arith, ap (λ f. f.f_count) counted))
            (omega (arith, ap (λ f. f.f_count) counted)),
        update-update k.current.filp new F null
            ∙ ap (update k.current.filp new) (sym free)
            ∙ update-id k.current.filp new,
        ap (λ i. update files i (less_one (files i))) same
            ∙ ap (λ f. update files F (less_one f)) (update_self k.file F more)
            ∙ update-update k.file F more (less_one more)
            ∙ ap (λ c. update k.file F (record (k.file F) { f_count = c })) {y = (k.file F).f_count}
                (omega arith)
            ∙ update-id k.file F,
      )

  -- `dupfd` of an open descriptor, with a free one from `arg` on, returns a free one, and
  -- `sys_close` of that one undoes it: it succeeds, and the descriptors and the open files are as
  -- before both calls. It is asked that the file has some users and fewer than 65535.
  pub sys_close-dupfd :
      (fd arg j : ℕ) (k : Kernel)
      → fd < nr_open
      → k.current.filp fd ≢ null
      → arg ≤ j
      → j < nr_open
      → k.current.filp j ≡ null
      → 0 < (k.file (k.current.filp fd)).f_count
      → (k.file (k.current.filp fd)).f_count < 2 ^ 16 - 1
      → (new : ℕ) × (k₁ : Kernel) × (k' : Kernel) × (arg ≤ new)
        × (k.current.filp new ≡ null)
        × (dupfd fd arg k ≡ ok (pos new) k₁)
        × (sys_close new k₁ ≡ ok success k')
        × (k'.current.filp ≡ k.current.filp)
        × (k'.file ≡ k.file)
  sys_close-dupfd fd arg j k real held low high free used few =
      let (new, from, to, unused, run) = dupfd_lem fd arg j k real held low high free in
      let (k', closes, filp, file) = sys_close-copied fd new k (omega arith) held unused used few in
      (new, copied fd new k, k', from, unused, run, closes, filp, file)
