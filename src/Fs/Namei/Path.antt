-- ===== src/Fs/Namei/Path.antt =====
-- fs/namei.c: the walk along a path.
use neantis.Prelude.{ℕ, zero, suc, ◌+◌, ◌-◌, true, false, not, ◌||◌, ◌==◌, if◌then◌else◌}
use neantis.Prelude.Words.{u16}
use neantis.Fs.State.{Ptr, null, Kernel}
use neantis.Fs.Run.{
  Outcome, ok, panic, out_of_fuel, Cmd, pure, and_then, ◌>>=◌, ◌>>◌, Machine, gets, set_inode, when,
}
use neantis.Fs.Bytes.{load16}
use neantis.Fs.Cache.{brelse}
use neantis.Fs.Truncate.{s_isdir}
use neantis.Fs.Inode.{iput}
use neantis.Fs.Iget.{iget}
use neantis.Fs.Namei.{permission, may_exec, find_entry}

-- The length of a path component from address `p` on, up to a slash or the final 0, and the
-- address behind that byte.
unfoldable pub component : ℕ → (ℕ → ℕ) → ℕ → ℕ → Kernel → Outcome (ℕ × ℕ)
component zero fs p n k = out_of_fuel
component (suc f) fs p n k = elim (fs p == 0 || fs p == b'/') [
  | true ↦ ok (n, p + 1) k
  | false ↦ component f fs (p + 1) (n + 1) k
]

-- `while((c=get_fs_byte(pathname++))) if(c=='/') basename = pathname;`
unfoldable pub last_name : ℕ → (ℕ → ℕ) → ℕ → ℕ → Kernel → Outcome (ℕ × ℕ)
last_name zero fs p basename k = out_of_fuel
last_name (suc f) fs p basename k = elim (fs p == 0) [
  | true ↦ ok (p + 1, basename) k
  | false ↦ last_name f fs (p + 1) (if fs p == b'/' then p + 1 else basename) k
]

module _ ⦃m : Machine⦄ where
  -- The loop of `get_dir`, with the path from address `p` on. The `if(!c) return inode;` of the
  -- source is the body of the `for` that reads a component, which runs only while `c` is not 0: so
  -- a component that ends the path is looked up like any other.
  unfoldable pub dir_walk : ℕ → Ptr → ℕ → Cmd Ptr
  unfolding permission iput component find_entry brelse iget
  dir_walk zero i p k = out_of_fuel
  dir_walk (suc f) i p k =
      elim (not (s_isdir (k.inode i).i_mode) || not (permission k i may_exec)) [
        | true ↦ (do iput i; pure null) k
        | false ↦ and_then (component m.rounds k.fs p 0 k) λ c k₁.
            and_then (find_entry i p c.0 k₁) λ e k₂. elim (e.buf == null) [
              | true ↦ (do iput e.dir; pure null) k₂
              | false ↦
                  let inr = load16 (k₂.buffer e.buf).b_data e.entry in
                  let idev = (k₂.inode e.dir).i_dev in
                  and_then ((do brelse e.buf; iput e.dir; iget idev inr) k₂) λ next k₃.
                    elim (next == null) [ true ↦ ok null k₃ | false ↦ dir_walk f next c.1 k₃ ]
            ]
      ]

  -- The first test of the source, written as an assignment there, compares with the slash.
  unfoldable pub get_dir : ℕ → Cmd Ptr
  unfolding dir_walk
  get_dir path k =
      let root = k.current.root in
      let pwd = k.current.pwd in
      if root == null || (k.inode root).i_count == 0
      then panic k
      else if pwd == null || (k.inode pwd).i_count == 0
      then panic k
      else if k.fs path == b'/'
      then (do
        set_inode root λ r. record r { i_count = u16 (r.i_count + 1) }
        dir_walk m.rounds root (path + 1))
          k
      else if k.fs path == 0
      then ok null k
      else (do
        set_inode pwd λ r. record r { i_count = u16 (r.i_count + 1) }
        dir_walk m.rounds pwd path)
          k

  -- the directory, and the address and length of the last name of the path
  unfoldable pub dir_namei : ℕ → Cmd (Ptr × ℕ × ℕ)
  unfolding get_dir last_name
  dir_namei path = do
    dir ← get_dir path
    if dir == null then pure (null, 0, 0) else do
      fs ← gets λ k. k.fs
      (p, basename) ← last_name m.rounds fs path path
      pure (dir, basename, p - basename - 1)

  unfoldable pub namei : ℕ → Cmd Ptr
  unfolding dir_namei find_entry brelse iput iget
  namei path = do
    (dir, basename, namelen) ← dir_namei path
    if dir == null then pure null else if namelen == 0 then pure dir else do
      e ← find_entry dir basename namelen
      if e.buf == null then (do iput e.dir; pure null) else do
        inr ← gets λ k. load16 (k.buffer e.buf).b_data e.entry
        dev ← gets λ k. (k.inode e.dir).i_dev
        brelse e.buf
        iput e.dir
        i ← iget dev inr
        when (not (i == null)) (do
          now ← gets λ k. k.current_time
          set_inode i λ r. record r { i_atime = now; i_dirt = 1 })
        pure i
