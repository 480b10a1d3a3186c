-- ===== src/Kernel.antt =====
-- The start of the kernel, `PrepareMemory` of kernel/src/kernelUtil.cpp: the allocator and the page
-- tables put together.
pub mod Range
pub mod Rounds
pub mod Root
pub mod Occupy
pub mod Identity
use mad_os.Base.{ℕ, zero, suc, ◌+◌, ◌-◌, ◌/◌, ◌^◌, ◌==◌, if◌then◌else◌, u64}
use mad_os.Base.Run.{Run, done, fault, ◌>>=◌}
use mad_os.MemSet.{memset}
use mad_os.Frames.{Frames, allocate_pages, request_page}
use mad_os.Frames.Boot.{get_memory_size, read_efi_memory_map}
use mad_os.Renderer.{FrameBuffer}
use mad_os.Paging.Map.{map_memory}

-- `for (i = …; …; i += 0x1000) MapMemory(i, i)`, with the rounds left.
unfoldable pub map_range : ℕ → Frames → (pml4 i : ℕ) → Run Frames
map_range zero s pml4 i = done s
map_range (suc left) s pml4 i = map_memory s pml4 i i >>= λ t. map_range left t pml4 (i + 0x1000)

-- The page of the root table, cleared: the allocator behind it, and its address.
unfoldable pub new_root : Frames → Run (Frames × ℕ)
new_root s =
    let (t, pml4) = request_page s in
    memset t.mem pml4 0 0x1000 >>= λ m. done (record t { mem = m }, pml4)

-- The rounds of a loop from `i` up to `limit` in steps of a page.
abbrev pub page_rounds : (limit i : ℕ) → ℕ
page_rounds limit i = (limit - i + 0xfff) / 0x1000

-- The root table, and the memory mapped to itself.
unfoldable pub map_memory_size : Frames → (mem_size : ℕ) → Run (Frames × ℕ)
map_memory_size s mem_size =
    new_root s >>= λ r. map_range (page_rounds mem_size 0) r.0 r.1 0 >>= λ t. done (t, r.1)

-- And the frame buffer, whose pages are allocated before.
unfoldable pub build_tables : Frames → (mem_size base size : ℕ) → Run (Frames × ℕ)
build_tables s mem_size base size = map_memory_size s mem_size >>= λ r.
    map_range (page_rounds (u64 (base + size)) base) (allocate_pages r.0 base (size / 0x1000 + 1))
      r.1 base
    >>= λ t. done (t, r.1)

pub record BootInfo : Type 0 where
  pub frame_buffer : FrameBuffer
  pub memory_map : ℕ
  pub map_size : ℕ
  pub descriptor_size : ℕ

-- `PrepareMemory` up to `enablePaging`, from the addresses of the kernel's image: the allocator, and the
-- address of the root table. A division by zero is a fault of the processor.
unfoldable pub prepare_memory : Frames → BootInfo → (kernel_start kernel_end : ℕ) → Run (Frames × ℕ)
prepare_memory s info kernel_start kernel_end =
    if info.descriptor_size == 0
    then fault
    else (let entries = info.map_size / info.descriptor_size in
        let base = info.frame_buffer.base_address in
        let size = u64 (info.frame_buffer.buffer_size + 0x1000) in
        let pages = u64 (kernel_end + 2 ^ 64 - kernel_start) / 4096 + 1 in
        let fresh = record s { page_bitmap = record { size = 0; buffer = 0 } } in
        read_efi_memory_map fresh info.memory_map info.map_size info.descriptor_size >>= λ s1.
        let (s2, mem_size) = get_memory_size s1 info.memory_map entries info.descriptor_size in
        build_tables (allocate_pages s2 kernel_start pages) mem_size base size)
