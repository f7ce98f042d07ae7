-- ===== src/Fs/Stat/Fields.antt =====
-- fs/stat.c: the structure that `sys_fstat` leaves in the memory of the user.
use neantis.Prelude.{ℕ, ◌+◌, ◌^◌, ◌<◌, ◌≡◌, refl, ◌≢◌, ◌⊎◌, ◌≤◌, sym, ap, ◌∙◌, arith, ==_ne}
use neantis.Fs.State.{null, nr_open, Block, MInode, Kernel}
use neantis.Fs.Run.{ok}
use neantis.Fs.Errno.{success}
use neantis.Fs.Bytes.{load16, load32, store16, store32}
use neantis.Fs.Pipe.{copy}
use neantis.Fs.Pipe.Rounds.{copy_lem}
use neantis.Fs.Pipe.Calls.{leb-false}
use neantis.Fs.Drivers.{Drivers}
use neantis.Fs.Stat.{stat_size, stat_of, cp_stat, sys_fstat}

-- `struct stat` at address `a` of the user's memory, read back as the system calls lay it out.
pub record IsStat (r : MInode) (fs : ℕ → ℕ) (a : ℕ) : Type 0 where
  pub dev : load16 fs a ≡ r.i_dev
  pub ino : load16 fs (a + 2) ≡ r.i_num
  pub mode : load16 fs (a + 4) ≡ r.i_mode
  pub nlink : fs (a + 6) ≡ r.i_nlinks
  pub uid : load16 fs (a + 8) ≡ r.i_uid
  pub gid : fs (a + 10) ≡ r.i_gid
  pub rdev : load16 fs (a + 12) ≡ r.i_zone 0
  pub size : load32 fs (a + 16) ≡ r.i_size
  pub atime : load32 fs (a + 20) ≡ r.i_atime
  pub mtime : load32 fs (a + 24) ≡ r.i_mtime
  pub ctime : load32 fs (a + 28) ≡ r.i_ctime

-- The fields fit their types.
pub record IsInode (r : MInode) : Type 0 where
  pub small_dev : r.i_dev < 2 ^ 16
  pub small_num : r.i_num < 2 ^ 16
  pub small_mode : r.i_mode < 2 ^ 16
  pub small_uid : r.i_uid < 2 ^ 16
  pub small_zone : r.i_zone 0 < 2 ^ 16
  pub small_size : r.i_size < 2 ^ 32
  pub small_atime : r.i_atime < 2 ^ 32
  pub small_mtime : r.i_mtime < 2 ^ 32
  pub small_ctime : r.i_ctime < 2 ^ 32

-- Bytes of the copy, at an offset in the structure.
copied16 :
    (d fs : Block) (a o : ℕ)
    → o + 1 < stat_size
    → load16 (copy stat_size d 0 fs a) (a + o) ≡ load16 d o
unfolding load16
copied16 d fs a o h =
    ground (arith, copy_lem stat_size d 0 fs a (a + o), copy_lem stat_size d 0 fs a (a + o + 1))

copied32 :
    (d fs : Block) (a o : ℕ)
    → o + 3 < stat_size
    → load32 (copy stat_size d 0 fs a) (a + o) ≡ load32 d o
unfolding load32
copied32 d fs a o h =
    rw (copied16 d fs a o (omega arith), sym (assoc a o 2), copied16 d fs a (o + 2) (omega arith))
      refl
  where
    assoc : (a b c : ℕ) → a + (b + c) ≡ a + b + c
    assoc a b c = omega arith

copied8 : (d fs : Block) (a o : ℕ) → o < stat_size → copy stat_size d 0 fs a (a + o) ≡ d o
copied8 d fs a o h = ground (arith, copy_lem stat_size d 0 fs a (a + o))

-- What is laid out is what the fields hold.
stat_of-IsStat : (r : MInode) (d : Block) → IsInode r → IsStat r (stat_of r d) 0
unfolding stat_of store16 store32 load16 load32
stat_of-IsStat r d small = record {
  dev = omega (arith, small.small_dev);
  ino = omega (arith, small.small_num);
  mode = omega (arith, small.small_mode);
  nlink = refl;
  uid = omega (arith, small.small_uid);
  gid = refl;
  rdev = omega (arith, small.small_zone);
  size = omega (arith, small.small_size);
  atime = omega (arith, small.small_atime);
  mtime = omega (arith, small.small_mtime);
  ctime = omega (arith, small.small_ctime);
}

copied-IsStat :
    (r : MInode) (d fs : Block) (a : ℕ) → IsStat r d 0 → IsStat r (copy stat_size d 0 fs a) a
copied-IsStat r d fs a s = record {
  dev =
      ap (λ p. load16 (copy stat_size d 0 fs a) p) {y = a + 0} (omega arith)
      ∙ copied16 d fs a 0 (omega arith)
      ∙ s.dev;
  ino = copied16 d fs a 2 (omega arith) ∙ s.ino;
  mode = copied16 d fs a 4 (omega arith) ∙ s.mode;
  nlink = copied8 d fs a 6 (omega arith) ∙ s.nlink;
  uid = copied16 d fs a 8 (omega arith) ∙ s.uid;
  gid = copied8 d fs a 10 (omega arith) ∙ s.gid;
  rdev = copied16 d fs a 12 (omega arith) ∙ s.rdev;
  size = copied32 d fs a 16 (omega arith) ∙ s.size;
  atime = copied32 d fs a 20 (omega arith) ∙ s.atime;
  mtime = copied32 d fs a 24 (omega arith) ∙ s.mtime;
  ctime = copied32 d fs a 28 (omega arith) ∙ s.ctime;
}

module _ ⦃d : Drivers⦄ where
  -- On an open file, `sys_fstat` succeeds and leaves in the memory of the user a `struct stat` whose
  -- fields are those of the inode; it changes no other byte and nothing else. `verify_area` is taken
  -- to change nothing that the model has.
  pub sys_fstat-IsStat :
      (fd a : ℕ) (k : Kernel)
      → ((a n : ℕ) (k : Kernel) → d.verify_area a n k ≡ ok tt k)
      → fd < nr_open
      → k.current.filp fd ≢ null
      → let i = (k.file (k.current.filp fd)).f_inode in
        i ≢ null
        → IsInode (k.inode i)
        → (fs : ℕ → ℕ) × (sys_fstat fd a k ≡ ok success (record k { fs = fs }))
          × IsStat (k.inode i) fs a
          × ((x : ℕ) → ((x < a) ⊎ (a + stat_size ≤ x)) → fs x ≡ k.fs x)
  unfolding sys_fstat cp_stat
  sys_fstat-IsStat fd a k verify open_fd real found small =
      let f = k.current.filp fd in
      let i = (k.file f).f_inode in
      let tmp = stat_of (k.inode i) d.stack in
      (
        copy stat_size tmp 0 k.fs a,
        rw
            (
              ==_ne f null real,
              ==_ne i null found,
              leb-false nr_open fd open_fd,
              verify a stat_size k,
            )
            refl,
        copied-IsStat (k.inode i) tmp k.fs a (stat_of-IsStat (k.inode i) d.stack small),
        λ x away. ground (arith, copy_lem stat_size tmp 0 k.fs a x),
      )
