-- ===== src/Vfs.antt =====
-- The file system server of src/sys/fs/vfs: its RAM disk, its block cache, and the Minix file
-- system on the disk.
pub mod Disk
pub mod Mode
pub mod Bcache
pub mod Minix
pub mod Inode
pub mod Files
pub mod Process
pub mod Server
