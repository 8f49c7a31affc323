-- ===== src/Disk.antt =====
-- kernel/disk_sched.c and kernel/disk_sched.h.
pub mod Raid
pub mod Queue
