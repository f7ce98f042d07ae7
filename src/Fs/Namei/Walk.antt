-- ===== src/Fs/Namei/Walk.antt =====
-- fs/namei.c: what a walk along a path returns.
use neantis.Prelude.{ℕ, zero, suc, ◌+◌, ◌≡◌, refl, not, ◌||◌, ◌==◌}
use neantis.Fs.State.{Ptr, null, Kernel}
use neantis.Fs.Run.{ok, ◌>>◌, Machine}
use neantis.Fs.Run.Gives.{
  Gives, returns, panics, stops, Gives-bind, Gives-elim, Gives-if, Gives-then, Gives-ok,
}
use neantis.Fs.Bytes.{load16}
use neantis.Fs.Inode.{iput}
use neantis.Fs.Iget.{iget}
use neantis.Fs.Cache.{brelse}
use neantis.Fs.Truncate.{s_isdir}
use neantis.Fs.Namei.{permission, may_exec, find_entry}
use neantis.Fs.Namei.Path.{component, dir_walk, get_dir, dir_namei, namei}

abbrev pub IsNull : Ptr → Kernel → Type 0
IsNull i k = i ≡ null

module _ ⦃m : Machine⦄ where
  dir_walk-IsNull : (f : ℕ) (i p : ℕ) (k : Kernel) → Gives IsNull (dir_walk f i p k)
  unfolding dir_walk
  dir_walk-IsNull zero i p k = stops
  dir_walk-IsNull (suc f) i p k =
      Gives-elim (not (s_isdir (k.inode i).i_mode) || not (permission k i may_exec))
        (λ _. Gives-bind (iput i k) λ _ k'. returns refl)
        (λ _. Gives-bind (component m.rounds k.fs p 0 k) λ c k₁.
          Gives-bind (find_entry i p c.0 k₁) λ e k₂.
            let inr = load16 (k₂.buffer e.buf).b_data e.entry in
            let idev = (k₂.inode e.dir).i_dev in
            Gives-elim (e.buf == null) (λ _. Gives-bind (iput e.dir k₂) λ _ k'. returns refl)
              (λ _. Gives-bind ((do brelse e.buf; iput e.dir; iget idev inr) k₂) λ next k₃.
                Gives-elim (next == null) (λ _. returns refl) (λ _. dir_walk-IsNull f next c.1 k₃)))

  -- What `get_dir` returns is null, whatever the path, the disks and the other tasks are.
  get_dir-IsNull : (path : ℕ) (k : Kernel) → Gives IsNull (get_dir path k)
  unfolding get_dir
  get_dir-IsNull path k =
      let root = k.current.root in
      let pwd = k.current.pwd in
      Gives-if (root == null || (k.inode root).i_count == 0) (λ _. panics)
        λ _.
          Gives-if (pwd == null || (k.inode pwd).i_count == 0) (λ _. panics)
            λ _.
              Gives-if (k.fs path == b'/') (λ _. dir_walk-IsNull m.rounds root (path + 1) _)
                λ _.
                  Gives-if (k.fs path == 0) (λ _. returns refl)
                    λ _. dir_walk-IsNull m.rounds pwd path _

  pub dir_namei-null : (path : ℕ) (k : Kernel) → Gives (λ d _. d ≡ (null, 0, 0)) (dir_namei path k)
  unfolding dir_namei
  dir_namei-null path k =
      Gives-then (get_dir path k) (get_dir-IsNull path k) λ dir k₁ e. rw e (returns refl)

  pub namei-IsNull : (path : ℕ) (k : Kernel) → Gives IsNull (namei path k)
  unfolding namei
  namei-IsNull path k =
      Gives-then (dir_namei path k) (dir_namei-null path k) λ d k₁ e. rw e (returns refl)

  -- Whenever `namei` returns, it returns null: no path names an inode, whatever the disks hold and
  -- the other tasks do.
  pub namei-null : (path : ℕ) (k k' : Kernel) (i : Ptr) → namei path k ≡ ok i k' → i ≡ null
  namei-null path k k' i e = Gives-ok (namei-IsNull path k) e
