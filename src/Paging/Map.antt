-- ===== src/Paging/Map.antt =====
-- `PageTableManager::MapMemory` of kernel/src/paging/PageTableManager.cpp.
pub mod Entries
pub mod Tree
pub mod Request
pub mod Steps
pub mod Descend
pub mod Leaf
pub mod Correct
pub mod Again
use mad_os.Base.{ℕ, ◌+◌, ◌*◌, true, false, u64, ◌<<◌, ◌>>>◌}
use mad_os.Base.Run.{Run, done, ◌>>=◌}
use mad_os.Memory.{load64, store64}
use mad_os.MemSet.{memset}
use mad_os.Frames.{Frames, request_page}
use mad_os.Paging.Entry.{present, read_write, get_flag, set_flag, get_address, set_address}
use mad_os.Paging.Indexer.{page_map_indexer}

-- `setAddress`, then the two flags: the word that points to an address.
abbrev pub linked : ℕ → ℕ → ℕ
linked entry addr =
    set_flag (set_flag (set_address entry (addr >>> 12)) present true) read_write true

-- One of the three equal stretches that go from a table to the next: the table that entry `i`
-- names, or a new one if the entry is not present.
unfoldable pub descend : Frames → (table i : ℕ) → Run (Frames × ℕ)
descend s table i =
    let entry = load64 s.mem (table + i * 8) in
    elim (get_flag entry present) [
      | true ↦ done (s, u64 (get_address entry << 12))
      | false ↦
          let (t, new) = request_page s in
          memset t.mem new 0 0x1000 >>= λ m.
          done (record t { mem = store64 m (table + i * 8) (linked entry new) }, new)
    ]

unfoldable pub map_memory : Frames → (pml4 virtual physical : ℕ) → Run Frames
map_memory s pml4 virtual physical =
    let i = page_map_indexer virtual in
    do
      (s, pdp) ← descend s pml4 i.pdp_i
      (s, pd) ← descend s pdp i.pd_i
      (s, pt) ← descend s pd i.pt_i
      let entry = load64 s.mem (pt + i.p_i * 8)
      done (record s { mem = store64 s.mem (pt + i.p_i * 8) (linked entry physical) })
