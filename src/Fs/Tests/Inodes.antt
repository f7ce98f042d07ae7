-- ===== src/Fs/Tests/Inodes.antt =====
-- Inodes and allocation maps: the theorems at a concrete state.
use neantis.Prelude.{ℕ, ◌^◌, ◌<◌, ◌≡◌, refl, false, arith, ltb, if◌then◌else◌, update}
use neantis.Prelude.Bits.{get_bit}
use neantis.Fs.State.{zero_inode, Kernel}
use neantis.Fs.Itable.{load_inode, store_inode}
use neantis.Fs.Itable.Disk.{Fits, load_inode-store_inode}
use neantis.Fs.Bitmap.{bit_at, find_first_zero}
use neantis.Fs.Bitmap.Bits.{first_zero, find_first_zero-first_zero}
use neantis.Fs.Tests.{quiet, bytes, inodes, small}

root-Fits : Fits (inodes 1)
root-Fits = omega arith

root_zones : (z : ℕ) → (inodes 1).i_zone z < 2 ^ 16
root_zones z = ground arith

load_inode-store_inode_example :
    load_inode (store_inode (inodes 1) 64 bytes) 64 zero_inode ≡ record zero_inode {
      i_mode = 0o40755;
      i_size = 32;
      i_nlinks = 2;
      i_zone = λ z. if ltb z 9 then (inodes 1).i_zone z else 0;
    }
load_inode-store_inode_example =
    load_inode-store_inode (inodes 1) zero_inode 64 bytes root-Fits root_zones

find_first_zero-first_zero_example : find_first_zero bytes ≡ first_zero bytes 8192 0
find_first_zero-first_zero_example = find_first_zero-first_zero bytes

finds_nine : find_first_zero bytes ≡ 9
unfolding find_first_zero get_bit
finds_nine = refl

nine_is_clear : bit_at bytes 9 ≡ false
unfolding bit_at get_bit
nine_is_clear = refl

-- Open file 1 has inode 3, and entry 2 was the last to be given away.
abbrev one_open : Kernel
one_open = record small {
  file =
      update small.file 1 (record { f_mode = 1; f_flags = 0; f_count = 1; f_inode = 3; f_pos = 2 });
  last_inode = 2;
}
