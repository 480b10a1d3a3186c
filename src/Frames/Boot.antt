-- ===== src/Frames/Boot.antt =====
-- `GetMemorySize`, `InitializeBitmap` and `ReadEfiMemoryMap`: what the kernel makes of the
-- firmware's memory map when it starts. The loops count with `int i`, which overflows, and this is
-- undefined, from 2 ^ 31 rounds on.
pub mod Zero
pub mod Entries
pub mod Final
pub mod Start
pub mod Survey
use mad_os.Base.{
  ℕ, zero, suc, ◌+◌, ◌*◌, ◌/◌, ◌%◌, ◌^◌, Bool, true, false, ◌&&◌, ◌||◌, ◌==◌, ltb, if◌then◌else◌,
  u64,
}
use mad_os.Base.Run.{Run, done, fault, ◌>>=◌}
use mad_os.Memory.{Memory, store8}
use mad_os.Efi.{descriptor, memory_type, phys_addr, num_pages, conventional_memory}
use mad_os.Frames.Defs.{Frames, allocate_pages, reserve_pages, unreserve_pages}

-- The sum over the entries from `i` on, added to `size`.
unfoldable pub sum_pages : Memory → (map descriptor_size : ℕ) → ℕ → ℕ → ℕ → ℕ
sum_pages m map descriptor_size zero i size = size
sum_pages m map descriptor_size (suc left) i size =
    sum_pages m map descriptor_size left (i + 1)
      (u64 (size + u64 (num_pages m (descriptor map descriptor_size i) * 4096)))

-- `memoryMapSize` is a static variable: a later call returns what the first one summed.
unfoldable pub get_memory_size : Frames → (map entries descriptor_size : ℕ) → Frames × ℕ
unfolding sum_pages
get_memory_size s map entries descriptor_size =
    let total = sum_pages s.mem map descriptor_size entries 0 s.memory_map_size in
    if ltb 0 s.memory_map_size
    then (s, s.memory_map_size)
    else (record s { memory_map_size = total }, total)

-- The largest segment of conventional memory among the entries from `i` on: its address and size.
unfoldable pub largest_segment : Memory → (map descriptor_size : ℕ) → ℕ → ℕ → ℕ × ℕ → ℕ × ℕ
largest_segment m map descriptor_size zero i best = best
largest_segment m map descriptor_size (suc left) i best =
    let desc = descriptor map descriptor_size i in
    let bytes = u64 (num_pages m desc * 4096) in
    let better = (memory_type m desc == conventional_memory) && ltb best.1 bytes in
    largest_segment m map descriptor_size left (i + 1)
      (if better then (phys_addr m desc, bytes) else best)

unfoldable pub zero_loop : ℕ → Memory → ℕ → ℕ → Memory
zero_loop zero m buffer i = m
zero_loop (suc left) m buffer i = zero_loop left (store8 m (buffer + i) 0) buffer (i + 1)

-- What a loop makes whose counter is an `int`.
abbrev pub with_int : {A : Type 0} → (rounds : ℕ) → A → Run A
with_int rounds result = if ltb rounds (2 ^ 31) then done result else fault

-- The bitmap in its place, with its bytes cleared.
unfoldable pub clear_bitmap : Frames → (bitmap_size buffer_address : ℕ) → Frames
unfolding zero_loop
clear_bitmap s bitmap_size buffer_address = record s {
  mem = zero_loop bitmap_size s.mem buffer_address 0;
  page_bitmap = record { size = bitmap_size; buffer = buffer_address };
}

unfoldable pub initialize_bitmap : Frames → (bitmap_size buffer_address : ℕ) → Run Frames
initialize_bitmap s bitmap_size buffer_address =
    with_int bitmap_size (clear_bitmap s bitmap_size buffer_address)

-- Whether an entry's memory counts as reserved: the loader's data and the boot and runtime code.
abbrev pub counts_reserved : ℕ → Bool
counts_reserved t = (t == 2) || (t == 3) || (t == 4) || (t == 5)

-- One round of the second loop over the entries, in its two halves. Each field is read where the
-- code reads it.
unfoldable pub give_back : Frames → ℕ → Frames
give_back s desc =
    let freed = unreserve_pages s (phys_addr s.mem desc) (num_pages s.mem desc) in
    if memory_type s.mem desc == conventional_memory
    then record freed {
      free_memory = u64 (freed.free_memory + u64 (num_pages freed.mem desc * 4096));
    }
    else s

unfoldable pub note_reserved : Frames → ℕ → Frames
note_reserved s desc =
    if counts_reserved (memory_type s.mem desc)
    then record s { reserved_memory = u64 (s.reserved_memory + u64 (num_pages s.mem desc * 4096)) }
    else s

unfoldable pub read_descriptor : Frames → ℕ → Frames
unfolding give_back note_reserved
read_descriptor s desc = note_reserved (give_back s desc) desc

unfoldable pub read_descriptors : (map descriptor_size : ℕ) → ℕ → ℕ → Frames → Frames
unfolding read_descriptor
read_descriptors map descriptor_size zero i s = s
read_descriptors map descriptor_size (suc left) i s =
    read_descriptors map descriptor_size left (i + 1)
      (read_descriptor s (descriptor map descriptor_size i))

-- In a cleared bitmap, all pages are reserved, those of conventional memory given back, and the first
-- 256 pages and those of the bitmap taken again.
unfoldable pub mark_bitmap : Frames → (map entries descriptor_size memory_size : ℕ) → Frames
mark_bitmap s1 map entries descriptor_size memory_size =
    let s2 = reserve_pages s1 0 (memory_size / 4096 + 1) in
    let s3 = read_descriptors map descriptor_size entries 0 s2 in
    let s4 = reserve_pages s3 0 0x100 in
    let s5 = record s4 { reserved_memory = u64 (s4.reserved_memory + 0x100 * 0x1000) } in
    allocate_pages s5 s5.page_bitmap.buffer (s5.page_bitmap.size / 4096 + 1)

-- The bitmap is set up in the segment at `buffer`.
unfoldable pub build_bitmap :
    Frames → (map entries descriptor_size memory_size buffer : ℕ) → Run Frames
build_bitmap s map entries descriptor_size memory_size buffer =
    initialize_bitmap s (memory_size / 4096 / 8 + 1) buffer >>= λ s1.
    with_int entries (mark_bitmap s1 map entries descriptor_size memory_size)

-- The body of `ReadEfiMemoryMap` behind its two guards, with the number of entries.
unfoldable pub read_entries : Frames → (map entries descriptor_size : ℕ) → Run Frames
unfolding largest_segment get_memory_size
read_entries s map entries descriptor_size =
    with_int entries (largest_segment s.mem map descriptor_size entries 0 (0, 0)) >>= λ segment.
    let (s', memory_size) = get_memory_size s map entries descriptor_size in
    build_bitmap s' map entries descriptor_size memory_size segment.0

-- A division by zero is a fault of the processor.
unfoldable pub read_efi_memory_map : Frames → (map map_size descriptor_size : ℕ) → Run Frames
unfolding read_entries
read_efi_memory_map s map map_size descriptor_size =
    if s.is_initialized
    then done s
    else if descriptor_size == 0
    then fault
    else read_entries (record s { is_initialized = true }) map (map_size / descriptor_size)
        descriptor_size
