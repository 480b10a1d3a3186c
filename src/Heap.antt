-- ===== src/Heap.antt =====
-- The kernel heap of kernel/src/mem/heap.cpp: blocks in a doubly linked chain in memory, with the
-- page frame allocator that it takes its pages from. `block + n` moves by `n` headers of 24 bytes,
-- as C++ has it. A call of `kmalloc` is given the number of times it may call itself.
mod Defs
pub mod Blocks
pub mod Split
pub mod Chain
pub mod Parts
pub mod Allocate
pub mod Free
pub mod RoundTrip
pub mod Expand
pub mod Grow
pub mod Fresh
pub mod Collect
unfoldable pub use Defs.*
