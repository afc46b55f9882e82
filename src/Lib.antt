-- ===== src/Lib.antt =====
-- The PML kernel: a verification library for parts of its C code. A number of C is a natural
-- number; where a machine integer can wrap around, the wrap is written out.
--
-- What is modelled, and where:
--   Hashmap.antt and Hashmap/: util/map.c, the hash table with integer keys. hashmap_create,
--     hashmap_insert, hashmap_lookup, hashmap_remove, hashmap_iterate and hashmap_free are
--     create, insert, lookup, remove, iterate and free. The hash function is a parameter. A
--     chain is the list of its entries; an entry that was freed while a chain reaches it stays
--     with live false. What the allocator does in a call is the number of its allocations that
--     succeed.
--   Bitmap.antt and Bitmap/: set_bit, clear_bit and test_bit of include/stdlib.h on an array of
--     bytes.
--   Pid.antt and Pid/: the process ID allocator of kernel/pid.c (init_pid_allocator, alloc_pid,
--     free_pid), which keeps the IDs in use in such a bitmap. A round of the loop of alloc_pid
--     takes one unit of fuel; the size grows by 1024 in each round up to 32768, so 33 units are
--     enough from any size.
--   Cred.antt and Cred/: the calls of kernel/pid.c on user and group IDs (sys_setuid to
--     sys_setgroups).
--   Perm.antt and Perm/: drivers/fs/perm.c, which tests those IDs against the mode of a file.
--   Fd.antt and Fd/: the descriptor tables of kernel/fd.c. A pointer into the table of the
--     system is its index there. Fd/Dup.antt is dupfd and sys_fcntl.
--   Pipe.antt and Pipe/: drivers/fs/pipe.c without sys_pipe. A call that would yield to another
--     thread gives wait.
--   Signal.antt and Signal/: kernel/signal.c: the sets of signals, what waits in a thread
--     (send_signal_thread, poll_signal, poll_signal_handler, sys_sigprocmask), the actions of a
--     process (sys_sigaction, sys_signal) and the choice of a thread in send_signal.
--   Ext2.antt and Ext2/: the bitmaps of the ext2 driver. Ext2/Bitarray.antt is
--     drivers/fs/ext2/bitarray.c, with its searches by bits, bytes and words; Ext2/Bitmap.antt
--     is the calls of drivers/fs/ext2/bitmap.c on one bit, a range, or a search, over any
--     operations with the laws of Ext2/Bitmap/Laws.antt, which the bit array has. A call that
--     would write out of an array of a 32-bit bitmap, or overflow an int, has no result.
--   Heap.antt and Heap/: kernel/heap.c, the allocator of the kernel, with malloc of
--     util/malloc.c. A heap is a map of headers and a map of tails by address; Heap/Blocks.antt
--     reads it as the list of its blocks. The search has as many rounds as the heap has bytes,
--     which is enough since a block has at least 32.
--   Lock.antt and Lock/: util/lock.c, the spinlock and the count of the semaphores, as steps of
--     one atomic access each. spinlock_acquire and semaphore_wait are cut at their accesses.
--   Mmap.antt and Mmap/: kernel/mman.c, the table of the memory regions of a process, as a list.
--     What the calls do to pages, files and memory is an argument, Machine. A loop over pages
--     has as many rounds as bytes.
--   Process.antt and Process/: the queue and the families of the processes in kernel/process.c,
--     with what lookup_pid finds as a function of the ID.
--   Strtoul.antt and Strtoul/: util/strtoul.c with the macros of include/ctype.h.
--   Errno.antt: the error numbers. Common.antt and Common/: Boolean tests, C arrays as lists,
--     and facts about bits.
--
-- A function that holds a lock from its first access of the shared state to its last is one
-- step. The loop of pipe_write that waits without the lock is two steps, and Pipe/Race.antt is
-- about two writers in it.
--
-- Not modelled: assembly, page tables, devices, disk input and output, formatted output, and the
-- start of the system.
pub mod Bitmap
pub mod Common
pub mod Cred
pub mod Errno
pub mod Ext2
pub mod Fd
pub mod Hashmap
pub mod Heap
pub mod Lock
pub mod Mmap
pub mod Perm
pub mod Pid
pub mod Pipe
pub mod Process
pub mod Signal
pub mod Strtoul
