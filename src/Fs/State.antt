-- ===== src/Fs/State.antt =====
-- include/neantis/fs.h and sched.h: the structures of the file system and of the current task.
-- A pointer into a table is a number: 0 is NULL and entry `i` of the table has address `i + 1`.
-- A field is its bit pattern. The lists of waiting tasks are left out: only the scheduler reads them.
use neantis.Prelude.{ℕ, ◌+◌, Bool, ◌==◌}
use neantis.Mm.{Memory}

abbrev pub Ptr : Type 0
Ptr = ℕ

abbrev pub null : Ptr
null = 0

-- the address of entry `i` of a table
abbrev pub slot : ℕ → Ptr
slot i = i + 1

abbrev pub name_len : ℕ
name_len = 14

abbrev pub root_ino : ℕ
root_ino = 1

abbrev pub map_slots : ℕ
map_slots = 8

abbrev pub super_magic : ℕ
super_magic = 0x137f

abbrev pub nr_open : ℕ
nr_open = 20

abbrev pub nr_inode : ℕ
nr_inode = 32

abbrev pub nr_file : ℕ
nr_file = 64

abbrev pub nr_super : ℕ
nr_super = 8

abbrev pub nr_hash : ℕ
nr_hash = 307

abbrev pub block_size : ℕ
block_size = 1024

-- the bytes of a block
abbrev pub Block : Type 0
Block = ℕ → ℕ

pub record BufferHead : Type 0 where
  pub b_data : Block
  pub b_blocknr : ℕ
  pub b_dev : ℕ
  pub b_uptodate : ℕ
  pub b_dirt : ℕ
  pub b_count : ℕ
  pub b_lock : ℕ
  pub b_prev : Ptr
  pub b_next : Ptr
  pub b_prev_free : Ptr
  pub b_next_free : Ptr

pub record MInode : Type 0 where
  pub i_mode : ℕ
  pub i_uid : ℕ
  pub i_size : ℕ
  pub i_mtime : ℕ
  pub i_gid : ℕ
  pub i_nlinks : ℕ
  pub i_zone : ℕ → ℕ
  pub i_atime : ℕ
  pub i_ctime : ℕ
  pub i_dev : ℕ
  pub i_num : ℕ
  pub i_count : ℕ
  pub i_lock : ℕ
  pub i_dirt : ℕ
  pub i_pipe : ℕ
  pub i_mount : ℕ

-- `memset(inode, 0, sizeof(*inode))`
abbrev pub zero_inode : MInode
zero_inode = record {
  i_mode = 0;
  i_uid = 0;
  i_size = 0;
  i_mtime = 0;
  i_gid = 0;
  i_nlinks = 0;
  i_zone = λ i. 0;
  i_atime = 0;
  i_ctime = 0;
  i_dev = 0;
  i_num = 0;
  i_count = 0;
  i_lock = 0;
  i_dirt = 0;
  i_pipe = 0;
  i_mount = 0;
}

-- `struct file`
pub record OpenFile : Type 0 where
  pub f_mode : ℕ
  pub f_flags : ℕ
  pub f_count : ℕ
  pub f_inode : Ptr
  pub f_pos : ℕ

pub record SuperBlock : Type 0 where
  pub s_ninodes : ℕ
  pub s_nzones : ℕ
  pub s_imap_blocks : ℕ
  pub s_zmap_blocks : ℕ
  pub s_firstdatazone : ℕ
  pub s_log_zone_size : ℕ
  pub s_max_size : ℕ
  pub s_magic : ℕ
  pub s_imap : ℕ → Ptr
  pub s_zmap : ℕ → Ptr
  pub s_dev : ℕ
  pub s_isup : Ptr
  pub s_imount : Ptr
  pub s_time : ℕ
  pub s_lock : ℕ
  pub s_rd_only : ℕ
  pub s_dirt : ℕ

-- the fields of `struct task_struct` that the kernel here reads; a descriptor is its eight bytes
pub record Task : Type 0 where
  pub signal : ℕ
  pub sa_handler : ℕ → ℕ
  pub end_code : ℕ
  pub end_data : ℕ
  pub brk : ℕ
  pub start_stack : ℕ
  pub pgrp : ℕ
  pub leader : ℕ
  pub uid : ℕ
  pub euid : ℕ
  pub gid : ℕ
  pub egid : ℕ
  pub used_math : ℕ
  pub tty : ℕ
  pub umask : ℕ
  pub pwd : Ptr
  pub root : Ptr
  pub executable : Ptr
  pub close_on_exec : ℕ
  pub filp : ℕ → Ptr
  pub ldt : ℕ → Block

-- the macro of include/neantis/kernel.h
abbrev pub suser : Task → Bool
suser t = t.euid == 0

-- All that the file system shares. `buffer null` is what lies at address 0: the kernel's memory is
-- mapped there, so that a write through a null `struct buffer_head *` lands in it.
-- `fs` is the memory of the user process, `current_time` what `CURRENT_TIME` reads, and `tty_pgrp`
-- the field `pgrp` of `tty_table`. `math_owner` says that `last_task_used_math` is the current task.
pub record Kernel : Type 0 where
  pub memory : Memory
  pub buffer : Ptr → BufferHead
  pub nr_buffers : ℕ
  pub hash_table : ℕ → Ptr
  pub free_list : Ptr
  pub inode : Ptr → MInode
  pub last_inode : Ptr
  pub file : Ptr → OpenFile
  pub super_block : Ptr → SuperBlock
  pub root_dev : ℕ
  pub current : Task
  pub fs : ℕ → ℕ
  pub current_time : ℕ
  pub tty_pgrp : ℕ → ℕ
  pub math_owner : Bool
