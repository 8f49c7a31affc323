-- ===== src/Tests.antt =====
-- The theorems at concrete inputs.
mod DiskRuns
mod ProcRuns
mod PagingRuns
mod PipeRuns
mod GrepRuns
mod StringRuns
mod LogRuns
mod BcacheRuns
mod FsRuns
mod InodeRuns
mod PathRuns
mod UvmRuns
mod ShRuns
