-- ===== src/Lib.antt =====
-- The paging, scheduling and recovery core of the GemOS extension of xv6, with its buffer cache and
-- the lower layers of its file system.
--
-- The kernel keeps its processes in a table of 64 slots (kernel/proc.c) and runs them from a
-- multilevel feedback queue of four levels. Physical pages come from a free list (kernel/kalloc.c).
-- When that is empty, a page fault evicts a page: a clock over the frame table chooses it
-- (kernel/memsys.c), and it is written to a swap block. Writing and reading go through a queue of
-- disk requests with two policies, FCFS and SSTF, and through a RAID mapping of blocks to four
-- disks (kernel/disk_sched.c). No data moves: the disks are simulated by their latencies. The file
-- system writes its blocks through a log (kernel/log.c), so that a crash leaves all of an operation
-- or none.
--
-- Base: the names that all modules share; tests, lists and integers over the native numbers.
-- Disk/Raid: the RAID mappings of kernel/disk_sched.c.
-- Disk/Queue: the request queue, `schedule_fcfs` and `schedule_sstf` of kernel/disk_sched.c.
-- Request: `add_disk_request`, `process_disk_request` and the statistics of kernel/disk_sched.c.
-- Proc: the process table of kernel/proc.c and kernel/proc.h; Proc/Calls: the system calls of
--   kernel/sysproc.c that read it.
-- Mlfq: `scheduler` and `yield` of kernel/proc.c, `clockintr` of kernel/trap.c.
-- Kalloc: kernel/kalloc.c.
-- Vm: the tree of page tables of kernel/vm.c, `walk`, `mappages` of one page and `ismapped`.
-- Uvm: `walkaddr`, `mappages`, `uvmunmap`, `uvmalloc` and `uvmdealloc` of kernel/vm.c.
-- Kernel: the globals that the paging code works on.
-- Memsys: kernel/memsys.c, and `vmfault` of kernel/vm.c.
-- Pipe: the ring of kernel/pipe.c.
-- Log: kernel/log.c, with `bwrite` of kernel/bio.c. A disk write succeeds while there is power, and
--   the power may fail before any of them; a restart forgets the memory and runs `initlog`.
-- Bcache: kernel/bio.c and kernel/buf.h.
-- Fs: the block bitmap of kernel/fs.c, over the log.
-- Inode: `bmap` of kernel/fs.c, `readi` and `writei` between a file and the kernel's memory
--   (Inode/Content and Inode/Writing), and `iupdate` with the read of `ilock` (Inode/Dinode).
-- Path: `skipelem` of kernel/fs.c, and the loop of `namex` around it.
-- Strings: kernel/string.c.
-- Grep: the matcher of user/grep.c.
-- Sh: the parser of user/sh.c. Sh/Written writes commands out, and Sh/RoundTrip parses them again.
-- Tests: the theorems at concrete inputs.
--
-- How state is modelled. A table is a function of the index, a pointer into a table is its index,
-- and the null pointer is `none`, or 0 where the code compares addresses. The requests on the disk
-- queue stay in a store, a function of their address, with their links; memory that holds page
-- tables is a function from addresses to 64-bit words. An operation takes the state and returns the
-- state after it, beside its return value. A result that can fail to come is an `Outcome`: `done`,
-- `panic`, or `spin` for a loop whose fuel has run out. A region under a lock is one step.
-- `end_op` is its two regions under the lock with `commit` between them, and other operations may
-- come between these parts.
--
-- Fuel. The walk along the disk queue has 32769 rounds, one more than there are pages of memory,
-- each of which holds at most one request. The loop of `evict_page` has three rounds of the clock's
-- hand. `freerange` has a round for each page below the end and one more. The searches of `bget`
-- have 31 rounds, one more than there are buffers. The loop of `mappages` has a round for each
-- page, that of `uvmalloc` one more. The outer loop of `balloc` has a round for each block and one
-- more. The loop of `namex` has a round for each name and one more. `strlen` takes its fuel. The
-- loops of `readi` and `writei` have a round for each byte and one more. Each loop of the shell's
-- parser has a round for each character of the text and one more.
--
-- Widths. The 64-bit disk counters and the 32-bit clock wrap as written. Counters of a process, and
-- the count of processes and of blocks, are natural numbers that the kernel does not bring to 2^31.
--
-- Not modelled: the contents of memory pages and of the simulated disks; `uvmcopy`, `freewalk`,
-- `copyin` and `copyout`; the context switch and the trap entry; locks and interrupts; directories
-- and descriptors; the console and the devices; `fork`, `exec` and the sizes of processes; the user
-- programs but for grep's matcher and the parser of the shell. They are hardware, or they stand
-- above the layers that are modelled.
pub mod Base
pub mod Disk
pub mod Proc
pub mod Mlfq
pub mod Kalloc
pub mod Kernel
pub mod Vm
pub mod Uvm
pub mod Request
pub mod Grep
pub mod Log
pub mod Memsys
pub mod Pipe
pub mod Sh
pub mod Strings
pub mod Bcache
pub mod Fs
pub mod Inode
pub mod Path
pub mod Tests
