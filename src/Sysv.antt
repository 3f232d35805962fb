-- ===== src/Sysv.antt =====
-- The System V server of src/sys/pm/sysv: semaphores, and message queues over ring buffers.
-- Its tables are pools of the kernel's resources, which the kernel's library allocates.
mod Tests
pub mod Resource
pub mod Pool
pub mod Flags
pub mod Sem
pub mod Msgbuf
pub mod Msg
pub mod Shm
pub mod Server
