-- ===== src/Fs/Bitmap.antt =====
-- fs/bitmap.c: the maps of the inodes and zones of a disk. (`new_inode` stands in `Iget`.)
pub mod Bits
use neantis.Prelude.{
  ℕ, zero, suc, ◌+◌, ◌-◌, ◌*◌, ◌/◌, ◌%◌, ◌^◌, ◌≤◌, Bool, true, false, not, ◌&&◌, ◌||◌, ltb, leb,
  ◌==◌, if◌then◌else◌, update, Option, none, some,
}
use neantis.Prelude.Bits.{get_bit, put_bit}
use neantis.Prelude.Words.{u32, sub32}
use neantis.Fs.State.{
  Ptr, null, map_slots, Block, block_size, BufferHead, MInode, zero_inode, SuperBlock, Kernel,
}
use neantis.Fs.Run.{
  Outcome, ok, panic, out_of_fuel, Cmd, Proc, pure, and_then, ◌>>=◌, ◌>>◌, Machine, gets, modify,
  set_buffer, set_inode, when,
}
use neantis.Fs.Super.{get_super}
use neantis.Fs.Cache.{get_hash_table, brelse}
use neantis.Fs.Buffer.{getblk}

-- the bits of a map block
abbrev pub map_bits : ℕ
map_bits = 8192

-- bit `nr` of the bit string at `b_data`
unfoldable pub bit_at : Block → ℕ → Bool
bit_at d nr = get_bit (nr % 8) (d (nr / 8))

unfoldable pub with_bit : Bool → ℕ → Block → Block
with_bit b nr d = update d (nr / 8) (put_bit b (nr % 8) (d (nr / 8)))

-- `set_bit`, `btsl ; setb`: the old bit, and the block with the bit set
abbrev pub set_bit : ℕ → Block → Bool × Block
set_bit nr d = (bit_at d nr, with_bit true nr d)

-- `clear_bit`, `btrl ; setnb`: whether the bit was clear already, and the block with it clear
abbrev pub clear_bit : ℕ → Block → Bool × Block
clear_bit nr d = (not (bit_at d nr), with_bit false nr d)

-- `notl ; bsfl` on the word of 32 bits from bit `base` on: its first clear bit, from `j` on
unfoldable pub first_clear : Block → ℕ → ℕ → ℕ → Option ℕ
unfolding bit_at
first_clear d base zero j = none
first_clear d base (suc n) j = if bit_at d (base + j) then first_clear d base n (j + 1) else some j

-- The loop of `find_first_zero` over the words, from bit `ecx` on, `n` words before its end.
unfoldable pub zero_loop : Block → ℕ → ℕ → ℕ
unfolding first_clear
zero_loop d zero ecx = ecx
zero_loop d (suc n) ecx = elim (first_clear d ecx 32 0) [
  | some edx ↦ ecx + edx
  | none ↦ zero_loop d n (ecx + 32)
]

unfoldable pub find_first_zero : Block → ℕ
unfolding zero_loop
find_first_zero d = zero_loop d 256 0

-- The search of `new_block` and `new_inode` through the map blocks: index, buffer and bit.
pub record Place : Type 0 where
  pub index : ℕ
  pub map_block : Ptr
  pub bit : ℕ

unfoldable pub search_maps : (ℕ → Ptr) → Kernel → ℕ → Place → Place
unfolding find_first_zero
search_maps maps k zero p = p
search_maps maps k (suc n) p =
    let b = maps p.index in
    let j = if b == null then p.bit else find_first_zero (k.buffer b).b_data in
    let stop = not (b == null) && ltb j map_bits in
    elim stop [
      | true ↦ record { index = p.index; map_block = b; bit = j }
      | false ↦ search_maps maps k n (record { index = p.index + 1; map_block = b; bit = j })
    ]

abbrev pub start_place : Place
start_place = record { index = 0; map_block = null; bit = map_bits }

-- `memset` of the block by `clear_block`
abbrev pub zero_block : Block
zero_block i = 0

module _ ⦃m : Machine⦄ where
  unfoldable pub free_block : ℕ → ℕ → Proc
  unfolding get_super get_hash_table brelse with_bit bit_at
  free_block dev block = do
    s ← get_super dev
    if s == null then panic else do
      sb ← gets λ k. k.super_block s
      if ltb block sb.s_firstdatazone || leb sb.s_nzones block then panic else do
        b ← get_hash_table dev block
        h ← gets λ k. k.buffer b
        if not (b == null) && not (h.b_count == 1) then pure tt else do
          when (not (b == null))
              (do set_buffer b λ r. record r { b_dirt = 0; b_uptodate = 0 }; brelse b)
          sb ← gets λ k. k.super_block s
          let nr = sub32 (block + 1) sb.s_firstdatazone
          let z = sb.s_zmap (nr / map_bits)
          d ← gets λ k. (k.buffer z).b_data
          let (was_clear, d') = clear_bit (nr % map_bits) d
          set_buffer z λ r. record r { b_data = d' }
          if was_clear then panic else set_buffer z λ r. record r { b_dirt = 1 }

  -- The result 0 says that the disk has no free zone. `j` is the bit pattern of an `int`.
  unfoldable pub new_block : ℕ → Cmd ℕ
  unfolding get_super search_maps getblk brelse with_bit bit_at
  new_block dev = do
    s ← get_super dev
    if s == null then panic else do
      sb ← gets λ k. k.super_block s
      p ← gets λ k. search_maps sb.s_zmap k map_slots start_place
      if leb map_slots p.index || p.map_block == null || leb map_bits p.bit then pure 0 else do
        d ← gets λ k. (k.buffer p.map_block).b_data
        let (was_set, d') = set_bit p.bit d
        set_buffer p.map_block λ r. record r { b_data = d' }
        if was_set then panic else do
          set_buffer p.map_block λ r. record r { b_dirt = 1 }
          let j = sub32 (p.bit + p.index * map_bits + sb.s_firstdatazone) 1
          if ltb j (2 ^ 31) && leb sb.s_nzones j then pure 0 else do
            b ← getblk dev j
            if b == null then panic else do
              h ← gets λ k. k.buffer b
              if not (h.b_count == 1) then panic else do
                set_buffer b λ r. record r { b_data = zero_block; b_uptodate = 1; b_dirt = 1 }
                brelse b
                pure j

  unfoldable pub free_inode : Ptr → Proc
  unfolding get_super with_bit bit_at
  free_inode i = if i == null then pure tt else do
    r ← gets λ k. k.inode i
    if r.i_dev == 0
        then set_inode i (λ _. zero_inode)
        else if ltb 1 r.i_count
        then panic
        else if not (r.i_nlinks == 0)
        then panic
        else do
          s ← get_super r.i_dev
          if s == null then panic else do
            sb ← gets λ k. k.super_block s
            r ← gets λ k. k.inode i
            if ltb r.i_num 1 || ltb sb.s_ninodes r.i_num then panic else do
              let b = sb.s_imap (r.i_num / map_bits)
              if b == null then panic else do
                d ← gets λ k. (k.buffer b).b_data
                let (was_clear, d') = clear_bit (r.i_num % map_bits) d
                set_buffer b λ h. record h { b_data = d' }
                if was_clear
                    then panic
                    else do set_buffer b λ h. record h { b_dirt = 1 }; set_inode i (λ _. zero_inode)
