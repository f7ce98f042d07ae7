-- ===== src/Fs.antt =====
-- The file system: the tables that its files share (`State`), and a module for each source file of
-- fs/ or part of one. The calls of getblk, sync_dev, write_inode and bread form a cycle, which
-- `Buffer` cuts by fuel: what inode.c does with the inode table (`Itable`) takes `bread` as an
-- argument.
pub mod State
pub mod Run
pub mod Bytes
pub mod Super
pub mod Cache
pub mod Itable
pub mod Buffer
pub mod Bitmap
pub mod Truncate
pub mod Inode
pub mod Iget
pub mod Errno
pub mod Namei
pub mod Files
pub mod Attributes
pub mod Mount
pub mod Pipe
pub mod Drivers
pub mod CharDev
pub mod FileDev
pub mod BlockDev
pub mod ReadWrite
pub mod Stat
pub mod Ioctl
pub mod Open
pub mod Tests
