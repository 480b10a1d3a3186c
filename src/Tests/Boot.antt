-- ===== src/Tests/Boot.antt =====
-- A memory map of two entries at 0x4000: 16 pages of the loader's data from 0, and 512 pages of
-- conventional memory from 0x100000.
use mad_os.Base.{ℕ, zero, suc, ◌+◌, ◌*◌, ◌≡◌, ◌<◌, inl, refl, true, false, arith}
use mad_os.Base.Run.{done}
use mad_os.Memory.{Memory, store32, store64}
use mad_os.Frames.{Frames}
use mad_os.Efi.{descriptor, memory_type, conventional_memory}
use mad_os.Frames.Boot.{largest_segment, read_efi_memory_map, get_memory_size}
use mad_os.Frames.Boot.Entries.{IsReadable, Fits}
use mad_os.Frames.Boot.Final.{IsBootable, boot_bitmap}
use mad_os.Frames.Boot.Start.{read_efi_memory_map-Booted, size_of, segment_of, Booted}

with_entry : Memory → ℕ → ℕ → ℕ → ℕ → Memory
with_entry m desc t phys pages =
    store64 (store64 (store32 m desc t) (desc + 8) phys) (desc + 24) pages

abbrev map : ℕ
map = 0x4000

abbrev memory : Memory
memory = with_entry (with_entry (λ x. 0) map 2 0 16) (map + 48) 7 0x100000 512

abbrev fresh : Frames
fresh = record {
  mem = memory;
  page_bitmap = record { size = 0; buffer = 0 };
  allocated_memory = 0;
  reserved_memory = 0;
  free_memory = 0;
  is_initialized = false;
  bitmap_index = 0;
  memory_map_size = 0;
}

abbrev started : Frames
started = record fresh { is_initialized = true }

size_is : size_of started map 2 48 ≡ 528 * 4096
unfolding get_memory_size mad_os.Memory.store mad_os.Memory.store8 mad_os.Memory.load with_entry
    mad_os.Efi.descriptor
size_is = refl

segment_is : segment_of started map 2 48 ≡ 0x100000
unfolding mad_os.Frames.Boot.largest_segment mad_os.Memory.store mad_os.Memory.store8
    mad_os.Memory.load with_entry mad_os.Efi.descriptor
segment_is = refl

Fits-each : (k : ℕ) → k < 2 → Fits memory (descriptor map 48 k)
unfolding mad_os.Memory.store mad_os.Memory.store8 mad_os.Memory.load with_entry descriptor
Fits-each zero h = λ _. omega arith
Fits-each (suc zero) h = λ _. omega arith
Fits-each (suc (suc k)) h = absurd (omega arith)

readable : IsReadable memory (boot_bitmap (528 * 4096) 0x100000) map 48 0 2
unfolding descriptor
readable = record { apart = λ k lo hi. inl (omega arith); fits = λ k lo hi. Fits-each k hi }

bootable : IsBootable memory map 2 48 (size_of started map 2 48) (segment_of started map 2 48)
bootable =
    rw (size_is, segment_is)
      (record { few = omega arith; small = omega arith; room = omega arith; readable = readable })

read_efi_memory_map-Booted_example :
    (t : Frames) × (read_efi_memory_map fresh map 96 48 ≡ done t)
    × Booted fresh t map 2 48 (size_of started map 2 48) (segment_of started map 2 48)
read_efi_memory_map-Booted_example =
    read_efi_memory_map-Booted fresh map 96 48 refl (omega arith) bootable
