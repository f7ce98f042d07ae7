-- ===== src/Fs/Namei.antt =====
-- fs/namei.c: permissions and the entries of a directory.
-- A path is an address in the memory of the user process; a directory entry is an offset in the
-- block that its buffer holds.
pub mod Path
pub mod Make
pub mod Remove
pub mod Open
pub mod Walk
pub mod Names
pub mod Entries
pub mod Access
use neantis.Prelude.{
  ℕ, zero, suc, ◌+◌, ◌-◌, ◌*◌, ◌/◌, ◌%◌, ◌^◌, Bool, true, false, not, ◌&&◌, ◌||◌, ltb, leb, ◌==◌,
  if◌then◌else◌, update, bit_and, List, [], ◌∷◌, get_or,
}
use neantis.Prelude.Words.{u16, u32, sub32}
use neantis.Fs.State.{
  suser, Ptr, null, name_len, root_ino, Block, block_size, BufferHead, MInode, SuperBlock, Task,
  Kernel,
}
use neantis.Fs.Run.{
  Outcome, ok, panic, out_of_fuel, Cmd, Proc, pure, and_then, ◌>>=◌, ◌>>◌, Machine, gets, modify,
  set_buffer, set_inode, when,
}
use neantis.Fs.Bytes.{load16, store16}
use neantis.Fs.Super.{get_super}
use neantis.Fs.Cache.{brelse}
use neantis.Fs.Buffer.{bread}
use neantis.Fs.Truncate.{s_isdir}
use neantis.Fs.Inode.{bmap, create_block, iput}

abbrev pub may_exec : ℕ
may_exec = 1

abbrev pub may_write : ℕ
may_write = 2

abbrev pub may_read : ℕ
may_read = 4

-- `sizeof(struct dir_entry)`
abbrev pub dir_entry_size : ℕ
dir_entry_size = 16

abbrev pub dir_entries_per_block : ℕ
dir_entries_per_block = 64

-- The three bits of the mode that `permission` looks at.
abbrev pub mode_for : Task → MInode → ℕ
mode_for t r =
    if t.euid == r.i_uid
    then r.i_mode / 2 ^ 6
    else if t.egid == r.i_gid
    then r.i_mode / 2 ^ 3
    else r.i_mode

-- `repe ; cmpsb` over `len` bytes
unfoldable pub same_bytes : ℕ → (ℕ → ℕ) → ℕ → Block → ℕ → Bool
same_bytes zero fs name d o = true
same_bytes (suc len) fs name d o = fs name == d o && same_bytes len fs (name + 1) d (o + 1)

-- `match`, at the entry at offset `o`
unfoldable pub matches : (ℕ → ℕ) → ℕ → ℕ → Block → ℕ → Bool
unfolding same_bytes load16
matches fs len name d o =
    if load16 d o == 0 || ltb name_len len
    then false
    else if ltb len name_len && not (d (o + 2 + len) == 0)
    then false
    else same_bytes len fs name d (o + 2)

-- What `find_entry` gives back: the directory, which it may change, the buffer and the entry.
pub record Found : Type 0 where
  pub dir : Ptr
  pub buf : Ptr
  pub entry : ℕ

-- `de->name[i] = (i<namelen) ? get_fs_byte(name+1) : 0` for `n` bytes from byte `i` on
unfoldable pub write_name : ℕ → ℕ → (ℕ → ℕ) → ℕ → ℕ → ℕ → Block → Block
write_name zero i fs name namelen o d = d
write_name (suc n) i fs name namelen o d =
    write_name n (i + 1) fs name namelen o
      (update d (o + 2 + i) (if ltb i namelen then fs (name + 1) else 0))

module _ ⦃m : Machine⦄ where
  unfoldable pub permission : Kernel → Ptr → ℕ → Bool
  permission k i mask =
      let r = k.inode i in
      if not (r.i_dev == 0) && r.i_nlinks == 0
      then false
      else bit_and (bit_and (mode_for k.current r) mask) 0o7 == mask || suser k.current

  -- The loop of `find_entry` from entry `i` on, at offset `o` of the buffer. Each round moves `i`
  -- up, so that `entries + 1` rounds reach the end.
  unfoldable pub find_loop : ℕ → ℕ → ℕ → ℕ → Ptr → Ptr → ℕ → ℕ → Cmd Found
  unfolding brelse bmap bread matches
  find_loop zero entries name namelen dir b i o k = out_of_fuel
  find_loop (suc n) entries name namelen dir b i o k =
      let look = λ (b : Ptr) (o : ℕ) (k : Kernel).
        let rest = find_loop n entries name namelen dir b (i + 1) (o + dir_entry_size) k in
        if matches k.fs namelen name (k.buffer b).b_data o
        then ok (record { dir = dir; buf = b; entry = o }) k
        else rest in
      elim (ltb i entries) [
        | false ↦ and_then (brelse b k) λ _. ok (record { dir = dir; buf = null; entry = 0 })
        | true ↦ elim (ltb o block_size) [
          | true ↦ look b o k
          | false ↦ and_then (brelse b k) λ _ k₁.
              and_then (bmap dir (i / dir_entries_per_block) k₁) λ block k₂.
                and_then (if block == 0 then ok null k₂ else bread (k₂.inode dir).i_dev block k₂)
                  λ b' k₃. elim (b' == null) [
                    | false ↦ look b' 0 k₃
                    | true ↦
                        find_loop n entries name namelen dir null (i + dir_entries_per_block) o k₃
                  ]
        ]
      ]

  -- From the root of a mounted system to the directory that it is mounted on.
  unfoldable pub leave_mounted : Ptr → Cmd Ptr
  unfolding get_super iput
  leave_mounted dir = do
    r ← gets λ k. k.inode dir
    s ← get_super r.i_dev
    sb ← gets λ k. k.super_block s
    if sb.s_imount == null then pure dir else do
      iput dir
      sb ← gets λ k. k.super_block s
      set_inode sb.s_imount λ r. record r { i_count = u16 (r.i_count + 1) }
      pure sb.s_imount

  -- `find_entry`, where `..` at the root of a mounted system goes on in the directory that it is
  -- mounted on, and at the root of the process means `.`.
  unfoldable pub find_entry : Ptr → ℕ → ℕ → Cmd Found
  unfolding leave_mounted bread find_loop
  find_entry dir name namelen = do
    let len = if ltb name_len namelen then name_len else namelen
    entries ← gets λ k. (k.inode dir).i_size / dir_entry_size
    if len == 0 then pure (record { dir = dir; buf = null; entry = 0 }) else do
      k ← gets λ k. k
      let dots = len == 2 && k.fs name == b'.' && k.fs (name + 1) == b'.'
      let at_root = dir == k.current.root
      dir ←
          if dots && not at_root && (k.inode dir).i_num == root_ino
          then leave_mounted dir
          else pure dir
      let len = if dots && at_root then 1 else len
      r ← gets λ k. k.inode dir
      if r.i_zone 0 == 0 then pure (record { dir = dir; buf = null; entry = 0 }) else do
        b ← bread r.i_dev (r.i_zone 0)
        if b == null
            then pure (record { dir = dir; buf = null; entry = 0 })
            else find_loop (entries + 1) entries name len dir b 0 0

  -- The loop of `add_entry` from entry `i` on, at offset `o` of the buffer. The result is the
  -- buffer and the offset of the new entry.
  unfoldable pub add_loop : ℕ → ℕ → ℕ → Ptr → Ptr → ℕ → ℕ → Cmd (Ptr × ℕ)
  unfolding brelse create_block bread write_name load16 store16
  add_loop zero name namelen dir b i o k = out_of_fuel
  add_loop (suc n) name namelen dir b i o k =
      let enter = λ (b : Ptr) (o : ℕ) (k : Kernel).
        and_then
          ((when (leb (k.inode dir).i_size (i * dir_entry_size)) (do
            set_buffer b λ h. record h { b_data = store16 h.b_data o 0 }
            now ← gets λ k. k.current_time
            set_inode dir λ r. record r {
              i_size = u32 ((i + 1) * dir_entry_size);
              i_dirt = 1;
              i_ctime = now;
            }))
            k)
          λ _ k.
            let rest = add_loop n name namelen dir b (i + 1) (o + dir_entry_size) k in
            if load16 (k.buffer b).b_data o == 0
            then (do
              set_inode dir λ r. record r { i_mtime = k.current_time }
              set_buffer b λ h. record h {
                b_data = write_name name_len 0 k.fs name namelen o h.b_data;
                b_dirt = 1;
              }
              pure (b, o))
                k
            else rest in
      elim (ltb o block_size) [
        | true ↦ enter b o k
        | false ↦ and_then (brelse b k) λ _ k₁.
            and_then (create_block dir (i / dir_entries_per_block) k₁) λ block k₂.
              elim (block == 0) [
                | true ↦ ok (null, 0) k₂
                | false ↦ and_then (bread (k₂.inode dir).i_dev block k₂) λ b' k₃.
                    elim (b' == null) [
                      | false ↦ enter b' 0 k₃
                      | true ↦ add_loop n name namelen dir null (i + dir_entries_per_block) o k₃
                    ]
              ]
      ]

  unfoldable pub add_entry : Ptr → ℕ → ℕ → Cmd (Ptr × ℕ)
  unfolding bread add_loop
  add_entry dir name namelen = do
    let len = if ltb name_len namelen then name_len else namelen
    r ← gets λ k. k.inode dir
    if len == 0 || r.i_zone 0 == 0 then pure (null, 0) else do
      b ← bread r.i_dev (r.i_zone 0)
      if b == null then pure (null, 0) else add_loop m.rounds name len dir b 0 0
