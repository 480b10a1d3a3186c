-- ===== src/Frames/Boot/Start.antt =====
-- `ReadEfiMemoryMap` as a whole: its guards, and the bitmap that it leaves.
use mad_os.Frames.Defs.{Frames, page_used}
use mad_os.Frames.Boot.{
  largest_segment, get_memory_size, clear_bitmap, mark_bitmap, read_entries, read_efi_memory_map,
}
use mad_os.Frames.Boot.Entries.{offers, AgreeOutside}
use mad_os.Frames.Boot.Final.{boot_bitmap, holds_bitmap, IsBootable, build_bitmap_bits}
use mad_os.Base.{ℕ, ◌+◌, ◌*◌, ◌/◌, ◌^◌, ◌<◌, ◌≡◌, true, false, not, ◌&&◌, ◌||◌, ◌==◌, ltb, arith}
use mathlib.Core.Path.{subst, sym}
use mad_os.Base.Run.{done}

-- The memory size that the first reading of a map computes, and the segment that it chooses.
abbrev pub size_of : Frames → (map entries descriptor_size : ℕ) → ℕ
size_of s map entries descriptor_size = (get_memory_size s map entries descriptor_size).1

abbrev pub segment_of : Frames → (map entries descriptor_size : ℕ) → ℕ
segment_of s map entries descriptor_size =
    (largest_segment s.mem map descriptor_size entries 0 (0, 0)).0

get_memory_size_mem :
    (s : Frames) (map entries descriptor_size : ℕ)
    → (get_memory_size s map entries descriptor_size).0.mem ≡ s.mem
unfolding get_memory_size
get_memory_size_mem s map entries descriptor_size = ground arith

abbrev pub Booted : (s t : Frames) → (map entries descriptor_size memory_size buffer : ℕ) → Type 0
Booted s t map entries descriptor_size memory_size buffer =
    ((j : ℕ)
      → j < (memory_size / 4096 / 8 + 1) * 8
      → page_used t j ≡ (
          holds_bitmap (boot_bitmap memory_size buffer) j
          || ltb j 0x100
          || (ltb j (memory_size / 4096 + 1)
              && not (offers s.mem map descriptor_size entries 0 j))))
    × AgreeOutside (boot_bitmap memory_size buffer) t.mem s.mem

-- The first reading of a memory map whose descriptors are not empty, and whose entries and bitmap an
-- `int` can count, returns, if the map and the bitmap lie apart in the address space. A page that the bitmap
-- reaches is then in use exactly if it holds the bitmap, is one of the first 256, or lies in the
-- memory that the map adds up to and is offered by no entry of conventional memory; and nothing
-- outside the bitmap has been written.
pub read_efi_memory_map-Booted :
    (s : Frames) (map map_size descriptor_size : ℕ)
    → let entries = map_size / descriptor_size in
      let s' = record s { is_initialized = true } in
      s.is_initialized ≡ false
      → 0 < descriptor_size
      → IsBootable s.mem map entries descriptor_size
          (size_of s' map entries descriptor_size)
          (segment_of s' map entries descriptor_size)
      → (t : Frames) × (read_efi_memory_map s map map_size descriptor_size ≡ done t)
        × Booted s t map entries descriptor_size
            (size_of s' map entries descriptor_size)
            (segment_of s' map entries descriptor_size)
unfolding read_efi_memory_map read_entries
read_efi_memory_map-Booted s map map_size descriptor_size first pos ok =
    let entries = map_size / descriptor_size in
    let s' = record s { is_initialized = true } in
    let u = (get_memory_size s' map entries descriptor_size).0 in
    let same : u.mem ≡ s.mem = get_memory_size_mem s' map entries descriptor_size in
    let size = size_of s' map entries descriptor_size in
    let buffer = segment_of s' map entries descriptor_size in
    let (run, bits, frame) =
      build_bitmap_bits u map entries descriptor_size size buffer
        (subst (λ m. IsBootable m map entries descriptor_size size buffer) (sym same) ok) in
    let some_size : (descriptor_size == 0) ≡ false = ground arith in
    let counted : ltb entries (2 ^ 31) ≡ true = ground (arith, ok.few) in
    let cleared = clear_bitmap u (size / 4096 / 8 + 1) buffer in
    let t = mark_bitmap cleared map entries descriptor_size size in
    (
      t,
      rw (first, some_size, counted) run,
      subst
          (λ m.
            ((j : ℕ)
              → j < (size / 4096 / 8 + 1) * 8
              → page_used t j ≡ (
                  holds_bitmap (boot_bitmap size buffer) j
                  || ltb j 0x100
                  || (ltb j (size / 4096 + 1) && not (offers m map descriptor_size entries 0 j))))
            × AgreeOutside (boot_bitmap size buffer) t.mem m)
          same (bits, frame),
    )
