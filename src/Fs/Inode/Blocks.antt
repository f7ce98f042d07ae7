-- ===== src/Fs/Inode/Blocks.antt =====
-- fs/inode.c: which zone of the disk `bmap` gives for a block of a file.
use neantis.Prelude.{
  ℕ, ◌+◌, ◌-◌, ◌*◌, ◌%◌, ◌^◌, ◌≤◌, ◌<◌, ◌≡◌, refl, ap, ◌∙◌, sym, ◌⊎◌, Bool, false, arith, ltb, leb,
  if◌then◌else◌,
}
use neantis.Fs.State.{Ptr, Kernel}
use neantis.Fs.Run.{ok, panic, Machine}
use neantis.Fs.Inode.{zones, max_block, create_zone, indirect, bmap_create, bmap}

module _ ⦃m : Machine⦄ where
  create_zone-off : (i : Ptr) (z : ℕ) (k : Kernel) → create_zone i z false k ≡ ok tt k
  unfolding create_zone
  create_zone-off i z k = refl

  -- `bmap` of one of the first seven blocks is the zone of the inode, and changes nothing; past the
  -- last block that a file can have, the kernel stops.
  bmap-ends :
      (i : Ptr) (block : ℕ) (k : Kernel)
      → (block < 7) ⊎ (max_block ≤ block)
      → bmap i block k ≡ (if ltb block 7 then ok ((k.inode i).i_zone block) k else panic k)
  unfolding bmap bmap_create
  bmap-ends i block k h = ground (arith, create_zone-off i block k)

  -- A block behind the first 519 is looked up by the remainder of its place there by 512.
  bmap_create-far :
      (i : Ptr) (n : ℕ) (create : Bool)
      → n < zones * zones
      → bmap_create i (7 + zones + n) create ≡ indirect i 8 (n % zones) create
  unfolding bmap_create
  bmap_create-far i n create h =
      rw (small, inside, not_direct, not_single) (ap (λ e. indirect i 8 e create) (omega arith))
    where
      small : leb (2 ^ 31) (519 + n) ≡ false
      small = ground arith

      inside : leb max_block (519 + n) ≡ false
      inside = ground arith

      not_direct : ltb (519 + n) 7 ≡ false
      not_direct = ground arith

      not_single : ltb (519 + n - 7) zones ≡ false
      not_single = ground arith

  -- Two blocks behind the first 519 that lie 512 apart are taken for the same one, whether they are
  -- looked up or made: the second level of the table of zones is missing.
  bmap_create-period :
      (i : Ptr) (n : ℕ) (create : Bool)
      → n + zones < zones * zones
      → bmap_create i (7 + zones + n) create ≡ bmap_create i (7 + zones + (n + zones)) create
  bmap_create-period i n create h =
      bmap_create-far i n create (omega arith)
      ∙ ap (λ e. indirect i 8 e create) {y = (n + zones) % zones} (omega arith)
      ∙ sym (bmap_create-far i (n + zones) create h)
