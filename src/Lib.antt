-- ===== src/Lib.antt =====
-- The servers of the Nanvix multikernel: the processes that give clients on other nodes remote
-- memory, names, semaphores, message queues and shared memory.
--
-- A server is a loop: it takes a request from its mailbox, runs the handler of the request's opcode
-- on its tables, and sends a reply. The tables are static arrays. Here a table is a function from
-- the index, a handler is a function from the tables and the request to a result and the tables it
-- leaves, and a round of the loop is the `switch` of the server. An assertion that fails stops the
-- server: handlers that may meet one return an option, with `none` for the stop.
--
-- The parts, and the files that model them (paths from the repository's root):
--   Common: arrays and the loops that search them, signed integers, results and error codes. C's
--     `int` is a signed integer without a bound, but for the values of semaphores, which wrap
--     around, and an `unsigned` has its wrap-around where the code counts with one. Common/Kernel
--     is what the kernel answers to a server's calls on the ports of a client.
--   Bits: the binary digits of a number, and the bitwise operations digit by digit.
--   Bitmap: src/libruntime/utils/bitmap.c and the macros of include/nanvix/runtime/utils.h
--     (bitmap_set, bitmap_clear, bitmap_check_bit, bitmap_first_free, bitmap_nset, bitmap_nclear).
--     Bitmap/Laws is about single bits and the search, Bitmap/Count about the counts.
--   Connection: src/sys/common/connection.c, the table of the clients that are connected to a
--     server (lookup, connect, disconnect, get_connections, connection_get_port,
--     connections_setup). Connection/Valid has its invariant, Connection/Refine its view as a count
--     of connections for each client.
--   Rmem: src/sys/mm/rmem/main.c and include/nanvix/servers/rmem.h, the server of remote memory
--     (do_rmem_alloc, do_rmem_free, do_rmem_write, do_rmem_read, do_rmem_loop, do_rmem_startup). It
--     allocates blocks from a bitmap and keeps the owner of each. Rmem/Address is about block
--     addresses, Rmem/Valid about the invariant, Rmem/Alloc about allocation and release,
--     Rmem/Access about reading, writing and the loop.
--   NameServer: src/sys/pm/name/main.c and include/nanvix/servers/name.h (do_name_init,
--     do_name_lookup, do_name_link, do_name_unlink, do_name_heartbeat, do_name_server).
--     NameServer/Cases has its view as a partial map from names to links, NameServer/Valid its
--     invariant; Link, Unlink, Accept and Server are about the handlers and the rounds.
--   Sysv: the System V server of src/sys/pm/sysv. Sysv/Sem is sem/sem.c (do_sem_get, do_sem_close,
--     do_sleep, do_wakeup, do_sem_operate, do_sem_init), Sysv/Msgbuf is msg/buffer.c, Sysv/Msg is
--     msg/msg.c (do_msg_get, do_msg_close, do_msg_send, do_msg_receive, do_msg_init), Sysv/Shm is
--     shm/shm.c (shm_alloc, shm_get, shm_put, shm_set_size; the requests are in Shm/Requests).
--     Sysv/Server is main.c: the handlers for message queues and semaphores, with those for regions
--     in Server/Region and the loop in Server/Loop, over the three services and the table of
--     Connection; Server/Wait is about the semaphores.
--     Sysv/Resource is what they take from the kernel's resource pools, and shm.c from the client
--     of remote memory, as records of operations and of what is documented of them.
--   Rcache: src/libruntime/mm/cache.c, the page cache of a process (nanvix_rcache_get,
--     nanvix_rcache_put, nanvix_rcache_alloc, nanvix_rcache_free, nanvix_rcache_fifo,
--     nanvix_rcache_bypass). Rcache/Client is src/libruntime/mm/stub.c, the client of remote
--     memory, over the rounds of Rmem; Rcache/Fifo is about getting a page.
--   Vfs: the file system server of src/sys/fs/vfs. Vfs/Disk is disk/ramdisk.c, Vfs/Bcache is
--     bcache/bcache.c (bread, bwrite, bwrite2, brelse, getblk, evict, binit and the three buffer_
--     functions), over Bcache/Flags, the flags that it takes from the kernel. Bcache/Evict is about
--     the search for a victim, Bcache/Coherent about what the cache represents, Bcache/Get, Read,
--     Change and Write about the calls. Vfs/Minix has the structures of include/fs/minix.h; Minix/Bytes is
--     the byte order, Minix/Inode is minix/inode.c, Minix/Block is minix/block.c and Minix/Super is
--     minix/super.c, each with its properties in modules below it. Minix/Dirent and Minix/Mkfs are
--     minix/minix.c (minix_dirent_search, minix_dirent_add, minix_dirent_remove; minix_mkfs,
--     minix_sync, minix_mount, minix_unmount). Vfs/Mode is the type of a file, Vfs/Inode is inode.c
--     (Inode/Transfer: inode_read, inode_put, inode_write, inode_get, inode_alloc; Inode/Lookup:
--     inode_name), Vfs/Files is fs.c and file.c (fs_open and fs_close; Files/Transfer: fs_read,
--     fs_write, fs_lseek; Files/System: fs_make, fs_mount, fs_unmount, fs_init, fs_shutdown),
--     Vfs/Process is vfs.c and fprocess.c, and Vfs/Server is main.c, with the messages that go in
--     and come out as lists. Vfs/Server runs on the table of Connection.
--
-- Bounds: the loops run over tables of fixed length, and are structural on it. Two loops run on
-- fuel: that of `evict`, with one round for each buffer, which Bcache/Evict shows to be enough
-- wherever the loop of the code ends, and that of minix_dirent_search, with two rounds for each entry
-- of the directory and one more, which Dirent/Search shows to be enough. A server's loop is
-- structural on the messages that it is given. The size of a RAM disk and the byte order of the machine are
-- parameters.
-- NANVIX_PROC_MAX, which depends on the processor, is a parameter.
--
-- Not modelled: the kernel's mailboxes and portals (what a client sends is an argument, what the
-- server sends is a result; whether its calls on a client's ports succeed is a field of the request,
-- but for the System V server, where they are taken to succeed), clocks and console output; tests of the Minix functions for null
-- pointers; the acknowledgement that a server sends before it moves data; the manager and the
-- other clients in src/libruntime than Rcache/Client and the page cache; the tests.
pub mod Common
pub mod Bits
pub mod Bitmap
pub mod Connection
pub mod Rmem
pub mod NameServer
pub mod Sysv
pub mod Rcache
pub mod Vfs
