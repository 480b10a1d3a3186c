-- ===== src/Frames.antt =====
-- The class `PageFrameAllocator` of kernel/src/paging/PageFrameAllocator.cpp, with the globals of
-- that file, `GetMemorySize` of kernel/src/mem/mem.cpp and the memory in which the bitmap lies.
-- Counters are `uint64_t` and wrap. A page is known by its number, its address divided by 4096.
mod Defs
pub mod Boot
pub mod Laws
pub mod Range
pub mod Cursor
pub mod Account
pub mod Request
unfoldable pub use Defs.*
