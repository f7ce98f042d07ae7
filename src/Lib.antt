-- ===== src/Lib.antt =====
-- Verification of the Neantis kernel: the page allocator, the kernel's own malloc, the clock, the
-- terminal queues, the Minix file system, the loading of programs and the tables of the processor.
--
-- The parts. mm/memory.c hands out pages of memory, and lib/malloc.c cuts them into smaller
-- objects; kernel/mktime.c turns a date into seconds; the macros of include/neantis/tty.h are the
-- queues between a terminal's driver and its readers. The file system has layers: the buffer cache
-- (fs/buffer.c) over the block driver; the allocation maps (fs/bitmap.c), the superblocks
-- (fs/super.c) and the inodes (fs/inode.c, fs/truncate.c) over the cache; and the directories and
-- paths (fs/namei.c) over the inodes. The calls of getblk, sync_dev, write_inode and bread form a
-- cycle. fs/exec.c puts a program in the place of the current task: it finds the file by
-- fs/namei.c, copies the arguments to pages of mm/memory.c, and sets the segments of the task.
-- kernel/traps.c fills the table of interrupts.
--
-- Files, and the code that they are about:
--   Prelude: numbers, words of C, bits, rings, tables as functions, and lists linked both ways.
--   Mm (mm/memory.c): get_free_page, free_page, mem_init. Mm/Alloc, Mm/Init: what they do.
--   Malloc (lib/malloc.c): malloc. Malloc/Free: free_s. Malloc/Buckets, Malloc/Carve,
--     Malloc/Return: what they do.
--   Clock (kernel/mktime.c): kernel_mktime. Clock/Calendar: the dates, counted one by one.
--   Segments (include/neantis/sched.h, include/asm/system.h): descriptors. Segments/Fields: their
--     fields.
--   Traps (kernel/traps.c, kernel/chr_drv/serial.c, kernel/blk_drv/ll_rw_blk.c): the start of the
--     interrupts, of the serial lines and of the requests. Traps/Gates: the interrupt table.
--   Exec (fs/exec.c): copy_strings, create_tables. Exec/Tables: the stack that the latter leaves.
--   Exec/Image, Exec/Layout (include/a.out.h): the header of a program, and the parts that it
--     names. Exec/Script (fs/exec.c): the first line of a script.
--   Exec/Ldt (fs/exec.c): change_ldt. Exec/Pages: the memory that it leaves.
--   Exec/Copies, Exec/Copies/Pushes, Exec/Copies/Arguments, Exec/Copies/Calls: what a page, the
--     inner loop, the outer loop and a call of copy_strings do. Exec/Frames: what a new program
--     finds on its stack.
--   Exec/Load, Exec/Become (fs/exec.c): do_execve, and its later half. Exec/Load/Ends,
--     Exec/Become/Ends: how they end.
--   Calls (include/neantis/sys.h, include/unistd.h): the table of system calls, and the macros
--     that make one. Wait (include/sys/wait.h): the status of a child.
--   Strings (include/string.h): strcpy and the others. Strings/Copies: what they do to strings.
--   Tty (include/neantis/tty.h): GETCH, PUTCH and the others. Tty/Fifo: the list of bytes held.
--   Fs/State (include/neantis/fs.h, include/neantis/sched.h): the structures. Fs/Run: commands.
--   Fs/Errno (include/errno.h): the results of system calls.
--   Fs/Super (fs/super.c): get_super and the locks. Fs/Super/Find: what get_super finds.
--   Fs/Cache, Fs/Buffer (fs/buffer.c): the queues, and the cache over the drivers.
--   Fs/Buffer/Init: buffer_init. Fs/Buffer/Ring, Fs/Buffer/Begin: the free list it leaves.
--     Fs/Buffer/Page: bread_page.
--   Fs/Cache/FreeList, Fs/Cache/FreeRing, Fs/Cache/Pick: the links of the free list, the circle
--     they make, and the buffers it gives. Fs/Buffer/Moves, Fs/Buffer/Order, Fs/Buffer/Calls: the
--     circle after a buffer is taken, after getblk, and along the calls of the cache.
--     Fs/Cache/Keeps, Fs/Itable/Keeps, Fs/Buffer/Keeps: the calls on the way leave it alone.
--     Fs/Buffer/Get: what every pass of getblk keeps. Fs/Buffer/Loose: the cache keeps what does not
--     depend on the cache.
--   Fs/Itable (fs/inode.c): the locks, read_inode and write_inode. Fs/Itable/Disk: the layout.
--   Fs/Bitmap (fs/bitmap.c): the bit macros, zones and inodes. Fs/Bitmap/Bits: the bits.
--   Fs/Truncate (fs/truncate.c). Fs/Inode (fs/inode.c): zones, iput, get_empty_inode.
--   Fs/Inode/Blocks, Fs/Inode/Counts, Fs/Inode/Unused, Fs/Inode/Keeps: what they do, and what they
--     keep. Fs/Iget: iget, get_pipe_inode, new_inode.
--   Fs/Namei (fs/namei.c): permissions and directory entries. Fs/Namei/Entries: what a found entry
--     is. Fs/Namei/Access: whom permission lets through. Fs/Namei/Path: the walk along a path.
--   Fs/Namei/Make, Fs/Namei/Remove, Fs/Namei/Open: the system calls and open_namei.
--   Fs/Files (fs/fcntl.c, and sys_close of fs/open.c): descriptors. Fs/Files/Dup: copies of them.
--   Fs/Attributes (fs/open.c): the calls that name a file. Fs/Attributes/Change: chdir.
--   Fs/Mount (fs/super.c): read_super, put_super. Fs/Mount/Calls: mount and umount.
--   Fs/Pipe (fs/pipe.c). Fs/Pipe/Rounds, Fs/Pipe/Calls, Fs/Pipe/Wakes, Fs/Pipe/Turns: one round of
--     a loop, whole calls, calls that wait, and readers and writers in turn.
--   Fs/Drivers: the drivers of the devices. Fs/CharDev (fs/char_dev.c), Fs/Ioctl (fs/ioctl.c).
--   Fs/FileDev (fs/file_dev.c), Fs/BlockDev (fs/block_dev.c): the loops over blocks.
--   Fs/ReadWrite (fs/read_write.c): read, write and lseek. Fs/ReadWrite/Seek, Fs/ReadWrite/Rounds,
--     Fs/ReadWrite/Extent: what they do.
--   Fs/Stat (fs/stat.c). Fs/Stat/Fields: what the user finds. Fs/Open (fs/open.c): open and creat.
--     Fs/Open/Fails: how they fail.
--
-- The state and the operations. The file system's state is the record Kernel: the tables as
-- functions from pointers (a table's entry i has the address i + 1, and 0 is NULL), the current
-- task, the memory of the user. A function of the source is a command of the same name: a function
-- from the state to a result and a new state, to a panic with the state it leaves, or to the end
-- of its fuel. A field is its bit pattern, with its wrap-around written out. Inline assembly is
-- written out by its effect.
--
-- Parameters. The scheduler, the block driver and the floppy driver are fields of the record
-- Machine: sleep_on, ll_rw_block and floppy_change may be any function, so that a theorem holds
-- whatever other tasks and drivers do at those points. The kernel is not preempted elsewhere. The
-- terminals, the ports and verify_area are fields of the record Drivers; put_page and
-- free_page_tables, which mm/memory.c holds in a comment, and strchr are fields of the record Mmu,
-- with the two addresses that the compiler chooses; what the ports read and where the handlers lie
-- are fields of the record Devices.
--
-- Fuel. Each loop that nothing bounds takes `rounds` of the machine, and the cycle of the cache
-- uses one unit at each call that comes round. A theorem about what a command returns holds for
-- every number of rounds; where the code returns at once one round is enough, and the theorem says
-- so.
--
-- Source that does not compile. The sources lack semicolons and names in places; the reading is
-- the plain one (`=` in the test of get_dir is read as `==`), and every slip that compiles is
-- modelled as it stands.
--
-- Not modelled: the boot code and the entries of the interrupts (assembly), and the headers that
-- only declare or name numbers.
pub mod Prelude
pub mod Mm
pub mod Clock
pub mod Tty
pub mod Fs
pub mod Malloc
pub mod Strings
pub mod Exec
pub mod Segments
pub mod Traps
pub mod Calls
pub mod Wait
