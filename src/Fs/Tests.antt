-- ===== src/Fs/Tests.antt =====
-- A concrete state of the kernel, at which the children of this module apply the theorems.
mod Buffers
mod Inodes
mod Names
mod Files
mod Pipes
mod Devices
mod Attributes
use neantis.Prelude.{ℕ, false, ◌==◌, if◌then◌else◌}
use neantis.Fs.State.{Ptr, null, Block, BufferHead, MInode, zero_inode, SuperBlock, Kernel}
use neantis.Fs.Run.{Outcome, ok, panic, out_of_fuel, Machine}

-- No other task changes anything, and the drivers do nothing.
instance abbrev pub quiet : Machine
quiet = record {
  sleep_on = λ k. k;
  ll_rw_block = λ rw b k. k;
  floppy_change = λ dev k. false;
  after_modes = λ i. 0;
  rounds = 40;
}

-- The bits 0 to 8 are set, and the inode 7 is called `a` at offset 16.
abbrev pub bytes : Block
bytes = λ p.
    if p == 0 then 255 else if p == 1 then 1 else if p == 16 then 7 else if p == 18 then b'a' else 0

abbrev no_buffer : BufferHead
no_buffer = record {
  b_data = λ p. 0;
  b_blocknr = 0;
  b_dev = 0;
  b_uptodate = 0;
  b_dirt = 0;
  b_count = 0;
  b_lock = 0;
  b_prev = null;
  b_next = null;
  b_prev_free = 1;
  b_next_free = 1;
}

-- Buffer 1 holds block 2 of device 1. The free list is buffer 1 and buffer 2.
abbrev pub buffers : Ptr → BufferHead
buffers = λ b.
    if b == 1
    then record no_buffer {
      b_data = bytes;
      b_blocknr = 2;
      b_dev = 1;
      b_uptodate = 1;
      b_count = 3;
      b_prev_free = 2;
      b_next_free = 2;
    }
    else no_buffer

-- Inode 1 is the root directory of device 1; inode 3 is a file there, and is in use too.
abbrev pub inodes : Ptr → MInode
inodes = λ i.
    if i == 1
    then record zero_inode {
      i_mode = 0o40755;
      i_size = 32;
      i_nlinks = 2;
      i_zone = λ z. if z == 0 then 2 else 0;
      i_dev = 1;
      i_num = 1;
      i_count = 3;
    }
    else if i == 3
    then record zero_inode { i_mode = 0o100644; i_nlinks = 1; i_dev = 1; i_num = 7; i_count = 2 }
    else zero_inode

abbrev no_super : SuperBlock
no_super = record {
  s_ninodes = 0;
  s_nzones = 0;
  s_imap_blocks = 0;
  s_zmap_blocks = 0;
  s_firstdatazone = 0;
  s_log_zone_size = 0;
  s_max_size = 0;
  s_magic = 0;
  s_imap = λ i. null;
  s_zmap = λ i. null;
  s_dev = 0;
  s_isup = null;
  s_imount = null;
  s_time = 0;
  s_lock = 0;
  s_rd_only = 0;
  s_dirt = 0;
}

-- The path at address 0 is `/a/`.
abbrev pub small : Kernel
small = record {
  memory = record { high_memory = 0x1000000; mem_map = λ i. 0; phys = λ a. 0 };
  buffer = buffers;
  nr_buffers = 2;
  hash_table = λ h. if h == 3 then 1 else null;
  free_list = 1;
  inode = inodes;
  last_inode = 1;
  file = λ f. record { f_mode = 0; f_flags = 0; f_count = 0; f_inode = null; f_pos = 0 };
  super_block = λ s. if s == 2 then record no_super { s_dev = 1 } else no_super;
  root_dev = 1;
  current = record {
    signal = 0;
    sa_handler = λ i. 0;
    end_code = 0;
    end_data = 0;
    brk = 0;
    start_stack = 0;
    pgrp = 0;
    leader = 0;
    uid = 0;
    euid = 0;
    gid = 0;
    egid = 0;
    used_math = 0;
    tty = 0;
    umask = 0;
    pwd = 1;
    root = 1;
    executable = 0;
    close_on_exec = 0;
    filp = λ fd. null;
    ldt = λ i p. 0;
  };
  fs = λ p. if p == 0 then b'/' else if p == 1 then b'a' else if p == 2 then b'/' else 0;
  current_time = 0;
  tty_pgrp = λ t. 0;
  math_owner = false;
}

-- the state that a call leaves
abbrev pub state : {A : Type 0} → Outcome A → Kernel
state (ok a k) = k
state (panic k) = k
state out_of_fuel = small
