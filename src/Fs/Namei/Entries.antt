-- ===== src/Fs/Namei/Entries.antt =====
-- fs/namei.c: what the entry is that `find_entry` finds.
use neantis.Prelude.{
  ℕ, zero, suc, ◌+◌, ◌/◌, ◌%◌, ◌<◌, ◌≤◌, ◌≡◌, ◌≢◌, ◌↔◌, refl, arith, true, not, ◌&&◌, ltb, ◌==◌,
  if◌then◌else◌,
}
use neantis.Fs.State.{Ptr, null, name_len, root_ino, Block, block_size, Kernel}
use neantis.Fs.Run.{ok, pure, Machine}
use neantis.Fs.Run.Gives.{
  Gives, returns, stops, Gives-bind, Gives-elim, Gives-if, Gives-branch, Gives-ok,
}
use neantis.Fs.Bytes.{load16}
use neantis.Fs.Cache.{brelse}
use neantis.Fs.Buffer.{bread}
use neantis.Fs.Inode.{bmap}
use neantis.Fs.Namei.{
  dir_entry_size, dir_entries_per_block, same_bytes, matches, Found, find_loop, leave_mounted,
  find_entry,
}

-- The entry at offset `o` is in use, and its name is the `len` bytes at `name`.
pub record IsEntry (fs : ℕ → ℕ) (len name : ℕ) (d : Block) (o : ℕ) : Type 0 where
  pub used : load16 d o ≢ 0
  pub short : len ≤ name_len
  pub same : (j : ℕ) → j < len → d (o + 2 + j) ≡ fs (name + j)
  pub ends : len < name_len → d (o + 2 + len) ≡ 0

same_bytes-same :
    (len : ℕ) (fs : ℕ → ℕ) (name : ℕ) (d : Block) (o : ℕ)
    → same_bytes len fs name d o ≡ true
    → (j : ℕ) → j < len
    → d (o + j) ≡ fs (name + j)
unfolding same_bytes
same_bytes-same zero fs name d o e j lt = absurd (omega arith)
same_bytes-same (suc len) fs name d o e zero lt = ground (arith, e)
same_bytes-same (suc len) fs name d o e (suc j) lt =
    ground
      (arith, e, same_bytes-same len fs (name + 1) d (o + 1) (ground (arith, e)) j (omega arith))

same-same_bytes :
    (len : ℕ) (fs : ℕ → ℕ) (name : ℕ) (d : Block) (o : ℕ)
    → ((j : ℕ) → j < len → d (o + j) ≡ fs (name + j))
    → same_bytes len fs name d o ≡ true
unfolding same_bytes
same-same_bytes zero fs name d o all = refl
same-same_bytes (suc len) fs name d o all = ground (
  arith,
  all 0 (omega arith),
  same-same_bytes len fs (name + 1) d (o + 1) (λ j lt. ground (arith, all (j + 1) (omega arith))),
)

-- The entry matches exactly when it is in use and has the name.
matches-IsEntry :
    (fs : ℕ → ℕ) (len name : ℕ) (d : Block) (o : ℕ)
    → (matches fs len name d o ≡ true) ↔ IsEntry fs len name d o
unfolding matches
matches-IsEntry fs len name d o = (
  λ e. record {
    used = ground (arith, e);
    short = ground (arith, e);
    same = same_bytes-same len fs name d (o + 2) (ground (arith, e));
    ends = λ lt. ground (arith, e);
  },
  λ entry. ground (
    arith,
    entry.used,
    entry.short,
    entry.ends,
    same-same_bytes len fs name d (o + 2) entry.same,
  ),
)

-- The length of the name that is looked for: at most 14 bytes, and of `..` one byte at the root of the process.
abbrev pub looked_for : Ptr → ℕ → ℕ → Kernel → ℕ
looked_for dir name namelen k =
    let len = if ltb name_len namelen then name_len else namelen in
    if (len == 2 && k.fs name == b'.' && k.fs (name + 1) == b'.') && dir == k.current.root
    then 1
    else len

-- No buffer, or one with an entry for the name, in a place of the table of entries.
record IsFound (len name : ℕ) (r : Found) (k : Kernel) : Type 0 where
  entry : r.buf ≢ null → IsEntry k.fs len name (k.buffer r.buf).b_data r.entry
  within : r.entry < block_size
  aligned : r.entry % dir_entry_size ≡ 0

module _ ⦃m : Machine⦄ where
  none-IsFound :
      (len name : ℕ) (dir : Ptr) (k : Kernel)
      → IsFound len name (record { dir = dir; buf = null; entry = 0 }) k
  none-IsFound len name dir k = record {
    entry = λ some. absurd (some refl);
    within = omega arith;
    aligned = omega arith;
  }

  find_loop-IsFound :
      (n entries name len : ℕ) (dir b : Ptr) (i o : ℕ) (k : Kernel)
      → o % dir_entry_size ≡ 0
      → Gives (IsFound len name) (find_loop n entries name len dir b i o k)
  unfolding find_loop
  find_loop-IsFound zero entries name len dir b i o k aligned = stops
  find_loop-IsFound (suc n) entries name len dir b i o k aligned =
      let rest = find_loop-IsFound n entries name len dir in
      let look : (b : Ptr) (o : ℕ) (k : Kernel)
          → o < block_size
          → o % dir_entry_size ≡ 0
          → Gives (IsFound len name) (
              if matches k.fs len name (k.buffer b).b_data o
              then ok (record { dir = dir; buf = b; entry = o }) k
              else find_loop n entries name len dir b (i + 1) (o + dir_entry_size) k) =
        λ b o k low aligned.
          Gives-if (matches k.fs len name (k.buffer b).b_data o)
            (λ e. returns (record {
              entry = λ some. (matches-IsEntry k.fs len name (k.buffer b).b_data o).0 e;
              within = low;
              aligned = aligned;
            }))
            (λ _. rest b (i + 1) (o + dir_entry_size) k (omega (arith, aligned))) in
      Gives-elim (ltb i entries)
        (λ _.
          Gives-elim (ltb o block_size) (λ low. look b o k (ground (arith, low)) aligned)
            λ _. Gives-bind (brelse b k) λ _ k₁.
              Gives-bind (bmap dir (i / dir_entries_per_block) k₁) λ block k₂.
                Gives-bind (if block == 0 then ok null k₂ else bread (k₂.inode dir).i_dev block k₂)
                  λ b' k₃.
                    Gives-elim (b' == null)
                      (λ _. rest null (i + dir_entries_per_block) o k₃ aligned)
                      λ _. look b' 0 k₃ (omega arith) (omega arith))
        λ _. Gives-bind (brelse b k) λ _ k₁. returns (none-IsFound len name dir k₁)

  find_entry-IsFound :
      (dir : Ptr) (name namelen : ℕ) (k : Kernel)
      → Gives (IsFound (looked_for dir name namelen k) name) (find_entry dir name namelen k)
  unfolding find_entry
  find_entry-IsFound dir name namelen k =
      let len = if ltb name_len namelen then name_len else namelen in
      let looked = looked_for dir name namelen k in
      Gives-branch (len == 0) _ _ k (λ _. returns (none-IsFound looked name dir k))
        λ _.
          let dots = len == 2 && k.fs name == b'.' && k.fs (name + 1) == b'.' in
          let at_root = dir == k.current.root in
          Gives-bind
            ((if dots && not at_root && (k.inode dir).i_num == root_ino
                then leave_mounted dir
                else pure dir)
              k)
            λ dir' k₁.
              let r = k₁.inode dir' in
              Gives-branch (r.i_zone 0 == 0) _ _ k₁
                (λ _. returns (none-IsFound looked name dir' k₁))
                λ _. Gives-bind (bread r.i_dev (r.i_zone 0) k₁) λ b k₂.
                  Gives-branch (b == null) _ _ k₂ (λ _. returns (none-IsFound looked name dir' k₂))
                    λ _.
                      let entries = (k.inode dir).i_size / dir_entry_size in
                      find_loop-IsFound (entries + 1) entries name looked dir' b 0 0 k₂
                        (omega arith)

  -- If `find_entry` returns a buffer, then the entry that it gives stands in it, at one of its 64 places; the entry
  -- is in use, and its name is the one that was looked for, at most 14 bytes of it, byte for byte and no longer: for `..` at the root of the process, the name `.`. This holds whatever other tasks and drivers do meanwhile.
  pub find_entry-IsEntry :
      (dir : Ptr) (name namelen : ℕ) (k k' : Kernel) (r : Found)
      → find_entry dir name namelen k ≡ ok r k'
      → r.buf ≢ null
      → IsEntry k'.fs (looked_for dir name namelen k) name (k'.buffer r.buf).b_data r.entry
        × (r.entry < block_size)
        × (r.entry % dir_entry_size ≡ 0)
  find_entry-IsEntry dir name namelen k k' r e some =
      let found = Gives-ok (find_entry-IsFound dir name namelen k) e in
      (found.entry some, found.within, found.aligned)
