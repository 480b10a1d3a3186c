-- ===== src/Efi.antt =====
-- The memory map of the firmware: `EFI_MEMORY_DESCRIPTOR` of kernel/src/efiMemory.h, laid out in
-- memory as the compiler lays it out, and its array, whose stride the firmware gives.
use mad_os.Base.{ℕ, ◌+◌, ◌*◌, u64}
use mad_os.Memory.{Memory, load32, load64}

-- The address of `Map[i]`: `(uint64_t)Map + (i * DescriptorSize)`.
unfoldable pub descriptor : ℕ → ℕ → ℕ → ℕ
descriptor map descriptor_size i = u64 (map + i * descriptor_size)

abbrev pub memory_type : Memory → ℕ → ℕ
memory_type m desc = load32 m desc

abbrev pub phys_addr : Memory → ℕ → ℕ
phys_addr m desc = load64 m (desc + 8)

abbrev pub num_pages : Memory → ℕ → ℕ
num_pages m desc = load64 m (desc + 24)

-- `EfiConventionalMemory`
abbrev pub conventional_memory : ℕ
conventional_memory = 7
