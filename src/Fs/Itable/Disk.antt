-- ===== src/Fs/Itable/Disk.antt =====
-- fs/inode.c: the layout of an inode in its block.
use neantis.Prelude.{
  ℕ, zero, suc, ◌+◌, ◌*◌, ◌%◌, ◌^◌, ◌≤◌, ◌<◌, ◌≡◌, refl, ◌⊎◌, inl, inr, ◌∙◌, arith, ltb, ◌==◌,
  if◌then◌else◌, update, update_self, update-ne, Bool-cases,
}
use neantis.Fs.State.{Block, MInode}
use neantis.Fs.Bytes.{load16, store16, load32, store32, load16-store16, load32-store32}
use neantis.Fs.Itable.{load_inode, store_inode, store_zones}

-- The fields fit their types.
pub record Fits (i : MInode) : Type 0 where
  pub mode : i.i_mode < 2 ^ 16
  pub uid : i.i_uid < 2 ^ 16
  pub size : i.i_size < 2 ^ 32
  pub mtime : i.i_mtime < 2 ^ 32
  pub gid : i.i_gid < 2 ^ 8
  pub nlinks : i.i_nlinks < 2 ^ 8

-- A byte outside the written half word or word is as before.
store16-out : (d : Block) (o v p : ℕ) → ((p < o) ⊎ (o + 2 ≤ p)) → store16 d o v p ≡ d p
unfolding store16
store16-out d o v p h = ground arith

store32-out : (d : Block) (o v p : ℕ) → ((p < o) ⊎ (o + 4 ≤ p)) → store32 d o v p ≡ d p
unfolding store32 store16
store32-out d o v p h = ground arith

store_zones-out :
    (n z : ℕ) (zone : ℕ → ℕ) (o : ℕ) (d : Block) (p : ℕ)
    → ((p < o + 14 + 2 * z) ⊎ (o + 14 + 2 * (z + n) ≤ p))
    → store_zones n z zone o d p ≡ d p
unfolding store_zones
store_zones-out zero z zone o d p h = refl
store_zones-out (suc n) z zone o d p h =
    store_zones-out n (z + 1) zone o (store16 d (o + 14 + 2 * z) (zone z)) p (omega arith)
    ∙ store16-out d (o + 14 + 2 * z) (zone z) p (omega arith)

load16-same : (c d : Block) (o : ℕ) → c o ≡ d o → c (o + 1) ≡ d (o + 1) → load16 c o ≡ load16 d o
unfolding load16
load16-same c d o p q = rw (p, q)

load_zone-store_zones :
    (n z : ℕ) (zone : ℕ → ℕ) (o : ℕ) (d : Block) (y : ℕ)
    → z ≤ y
    → y < z + n
    → zone y < 2 ^ 16
    → load16 (store_zones n z zone o d) (o + 14 + 2 * y) ≡ zone y
unfolding store_zones
load_zone-store_zones zero z zone o d y lo hi fit = absurd (omega arith)
load_zone-store_zones (suc n) z zone o d y lo hi fit = elim (Bool-cases (z == y)) [
  | inl same ↦
      let e : z ≡ y = ground arith in
      let rest = store16 d (o + 14 + 2 * z) (zone z) in
      load16-same (store_zones n (z + 1) zone o rest) rest (o + 14 + 2 * y)
        (store_zones-out n (z + 1) zone o rest (o + 14 + 2 * y) (omega arith))
        (store_zones-out n (z + 1) zone o rest (o + 14 + 2 * y + 1) (omega arith))
      ∙ rw e (load16-store16 d (o + 14 + 2 * y) (zone y) fit)
  | inr other ↦
      load_zone-store_zones n (z + 1) zone o (store16 d (o + 14 + 2 * z) (zone z)) y (ground arith)
        (ground arith) fit
]

-- No byte outside the 32 bytes of the inode changes.
store_inode-out :
    (i : MInode) (o : ℕ) (d : Block) (p : ℕ) → ((p < o) ⊎ (o + 32 ≤ p)) → store_inode i o d p ≡ d p
unfolding store_inode
store_inode-out i o d p h =
    let d₁ = store16 d o i.i_mode in
    let d₂ = store16 d₁ (o + 2) i.i_uid in
    let d₃ = store32 d₂ (o + 4) i.i_size in
    let d₄ = store32 d₃ (o + 8) i.i_mtime in
    let d₅ = update d₄ (o + 12) (i.i_gid % 2 ^ 8) in
    let d₆ = update d₅ (o + 13) (i.i_nlinks % 2 ^ 8) in
    store_zones-out 9 0 i.i_zone o d₆ p (omega arith)
    ∙ update-ne d₅ (o + 13) p (i.i_nlinks % 2 ^ 8) (omega arith)
    ∙ update-ne d₄ (o + 12) p (i.i_gid % 2 ^ 8) (omega arith)
    ∙ store32-out d₃ (o + 8) i.i_mtime p (omega arith)
    ∙ store32-out d₂ (o + 4) i.i_size p (omega arith)
    ∙ store16-out d₁ (o + 2) i.i_uid p (omega arith)
    ∙ store16-out d o i.i_mode p (omega arith)

-- The block after the half words and words of `store_inode`, one after another.
abbrev stage₁ : MInode → ℕ → Block → Block
stage₁ i o d = store16 d o i.i_mode

abbrev stage₂ : MInode → ℕ → Block → Block
stage₂ i o d = store16 (stage₁ i o d) (o + 2) i.i_uid

abbrev stage₃ : MInode → ℕ → Block → Block
stage₃ i o d = store32 (stage₂ i o d) (o + 4) i.i_size

abbrev stage₄ : MInode → ℕ → Block → Block
stage₄ i o d = store32 (stage₃ i o d) (o + 8) i.i_mtime

abbrev stage₅ : MInode → ℕ → Block → Block
stage₅ i o d = update (stage₄ i o d) (o + 12) (i.i_gid % 2 ^ 8)

abbrev stage₆ : MInode → ℕ → Block → Block
stage₆ i o d = update (stage₅ i o d) (o + 13) (i.i_nlinks % 2 ^ 8)

module _ (i : MInode) (o : ℕ) (d : Block) (p : ℕ) where
  at₆ : p < o + 14 → store_inode i o d p ≡ stage₆ i o d p
  unfolding store_inode
  at₆ h = store_zones-out 9 0 i.i_zone o (stage₆ i o d) p (omega arith)

  at₅ : p < o + 13 → store_inode i o d p ≡ stage₅ i o d p
  at₅ h = at₆ (omega arith) ∙ update-ne (stage₅ i o d) (o + 13) p (i.i_nlinks % 2 ^ 8) (omega arith)

  at₄ : p < o + 12 → store_inode i o d p ≡ stage₄ i o d p
  at₄ h = at₅ (omega arith) ∙ update-ne (stage₄ i o d) (o + 12) p (i.i_gid % 2 ^ 8) (omega arith)

  at₃ : p < o + 8 → store_inode i o d p ≡ stage₃ i o d p
  at₃ h = at₄ (omega arith) ∙ store32-out (stage₃ i o d) (o + 8) i.i_mtime p (omega arith)

  at₂ : p < o + 4 → store_inode i o d p ≡ stage₂ i o d p
  at₂ h = at₃ (omega arith) ∙ store32-out (stage₂ i o d) (o + 4) i.i_size p (omega arith)

  at₁ : p < o + 2 → store_inode i o d p ≡ stage₁ i o d p
  at₁ h = at₂ (omega arith) ∙ store16-out (stage₁ i o d) (o + 2) i.i_uid p (omega arith)

load32-same :
    (c e : Block) (o : ℕ)
    → c o ≡ e o
    → c (o + 1) ≡ e (o + 1)
    → c (o + 2) ≡ e (o + 2)
    → c (o + 2 + 1) ≡ e (o + 2 + 1)
    → load32 c o ≡ load32 e o
unfolding load32 load16
load32-same c e o p q r s = rw (p, q, r, s)

-- Inodes that fit their types come back from the block as they went: mode, owner, size, time,
-- group, links and the nine zones. All else of the inode in memory stays.
pub load_inode-store_inode :
    (i j : MInode) (o : ℕ) (d : Block)
    → Fits i
    → ((z : ℕ) → i.i_zone z < 2 ^ 16)
    → load_inode (store_inode i o d) o j ≡ record j {
      i_mode = i.i_mode;
      i_uid = i.i_uid;
      i_size = i.i_size;
      i_mtime = i.i_mtime;
      i_gid = i.i_gid;
      i_nlinks = i.i_nlinks;
      i_zone = λ z. if ltb z 9 then i.i_zone z else j.i_zone z;
    }
unfolding load_inode
load_inode-store_inode i j o d fits small = λ t. record j {
  i_mode = mode t;
  i_uid = uid t;
  i_size = size t;
  i_mtime = mtime t;
  i_gid = gid t;
  i_nlinks = nlinks t;
  i_zone = λ z. zone z t;
}
  where
    D : Block
    D = store_inode i o d

    mode : load16 D o ≡ i.i_mode
    mode =
        load16-same D (stage₁ i o d) o (at₁ i o d o (omega arith)) (at₁ i o d (o + 1) (omega arith))
        ∙ load16-store16 d o i.i_mode fits.mode

    uid : load16 D (o + 2) ≡ i.i_uid
    uid =
        load16-same D (stage₂ i o d) (o + 2) (at₂ i o d (o + 2) (omega arith))
          (at₂ i o d (o + 2 + 1) (omega arith))
        ∙ load16-store16 (stage₁ i o d) (o + 2) i.i_uid fits.uid

    size : load32 D (o + 4) ≡ i.i_size
    size =
        load32-same D (stage₃ i o d) (o + 4) (at₃ i o d (o + 4) (omega arith))
          (at₃ i o d (o + 4 + 1) (omega arith)) (at₃ i o d (o + 4 + 2) (omega arith))
          (at₃ i o d (o + 4 + 2 + 1) (omega arith))
        ∙ load32-store32 (stage₂ i o d) (o + 4) i.i_size fits.size

    mtime : load32 D (o + 8) ≡ i.i_mtime
    mtime =
        load32-same D (stage₄ i o d) (o + 8) (at₄ i o d (o + 8) (omega arith))
          (at₄ i o d (o + 8 + 1) (omega arith)) (at₄ i o d (o + 8 + 2) (omega arith))
          (at₄ i o d (o + 8 + 2 + 1) (omega arith))
        ∙ load32-store32 (stage₃ i o d) (o + 8) i.i_mtime fits.mtime

    gid : D (o + 12) ≡ i.i_gid
    gid =
        at₅ i o d (o + 12) (omega arith)
        ∙ update_self (stage₄ i o d) (o + 12) (i.i_gid % 2 ^ 8)
        ∙ omega (arith, fits.gid)

    nlinks : D (o + 13) ≡ i.i_nlinks
    nlinks =
        at₆ i o d (o + 13) (omega arith)
        ∙ update_self (stage₅ i o d) (o + 13) (i.i_nlinks % 2 ^ 8)
        ∙ omega (arith, fits.nlinks)

    zone :
        (z : ℕ)
        → (if ltb z 9 then load16 D (o + 14 + 2 * z) else j.i_zone z)
          ≡ (if ltb z 9 then i.i_zone z else j.i_zone z)
    zone z = elim (Bool-cases (ltb z 9)) [
      | inl inside ↦ rw inside (stored z (ground arith))
      | inr outside ↦ rw outside
    ]
      where
        stored : (z : ℕ) → z < 9 → load16 D (o + 14 + 2 * z) ≡ i.i_zone z
        stored z h =
            unfold store_inode in
            load_zone-store_zones 9 0 i.i_zone o (stage₆ i o d) z (omega arith) (omega arith)
              (small z)
