-- ===== src/Paging.antt =====
-- Paging: page table entries (kernel/src/paging/paging.cpp), the split of a virtual address
-- (PageMapIndexer.cpp) and `MapMemory` (PageTableManager.cpp).
pub mod Entry
pub mod Indexer
pub mod Walk
pub mod Map
