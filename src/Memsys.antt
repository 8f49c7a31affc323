-- ===== src/Memsys.antt =====
-- kernel/memsys.c, and `vmfault` of kernel/vm.c: the frame table, the clock that chooses the page to
-- evict, and the disk-backed swap table.
pub mod Table
pub mod Evict
pub mod Pageout
pub mod Pagein
pub mod Fault
pub mod Frames
pub mod Measure
pub mod Clock
pub mod Swap
pub mod Accounts
pub mod Exhausted
