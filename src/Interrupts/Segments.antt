-- ===== src/Interrupts/Segments.antt =====
-- The segment table: `DefaultGDT` of kernel/src/GDT/GDT.cpp, `SetupGDT` of kernel/src/kernelUtil.cpp,
-- and the registers that `SetupGDT` and `InitializeIDT` load. The instructions that load them are
-- assembly.
use mad_os.Base.{
  ℕ, ◌+◌, ◌-◌, ◌*◌, ◌/◌, ◌≤◌, ◌≡◌, refl, true, some, Option, List, [], ◌∷◌, length, get_elem?,
  bit_and, ◌==◌, arith,
}
use mad_os.Interrupts.{Idt, idt_set_entry}

pub record GdtEntry : Type 0 where
  pub limit_low : ℕ
  pub base_low : ℕ
  pub base_middle : ℕ
  pub access : ℕ
  pub granularity : ℕ
  pub base_high : ℕ

abbrev pub flat : (access granularity : ℕ) → GdtEntry
flat access granularity = record {
  limit_low = 0;
  base_low = 0;
  base_middle = 0;
  access = access;
  granularity = granularity;
  base_high = 0;
}

-- `DefaultGDT`: the null entry, the kernel's code and data, the user's code and data.
abbrev pub default_gdt : List GdtEntry
default_gdt =
    flat 0x00 0x00 ∷ flat 0x9a 0xa0 ∷ flat 0x92 0xa0 ∷ flat 0xfa 0xa0 ∷ flat 0xf2 0xa0 ∷ []

-- `sizeof(GDTEntry)`
abbrev pub gdt_entry_size : ℕ
gdt_entry_size = 8

-- A register for a table: its last byte's offset, and its address.
pub record GdtDescriptor : Type 0 where
  pub size : ℕ
  pub offset : ℕ

-- `SetupGDT`, for the address of the table.
unfoldable pub setup_gdt : (address : ℕ) → GdtDescriptor
setup_gdt address = record { size = gdt_entry_size * length default_gdt - 1; offset = address }

-- `InitializeIDT` behind `InstallISR`, for the address of `idt`: 256 entries of 16 bytes.
unfoldable pub load_idt : (address : ℕ) → GdtDescriptor
load_idt address = record { size = 16 * 256 - 1; offset = address }

-- The entry that a selector names.
abbrev pub selected_entry : ℕ → Option GdtEntry
selected_entry selector = get_elem? default_gdt (selector / 8)

-- The selector of every gate that `IdtSetEntry` writes lies within the segment table, and names an
-- entry for code that is present, of the kernel's level, and of 64 bits.
pub idt_set_entry-selector :
    (idt : Idt) (n handler address : ℕ)
    → let gate = idt_set_entry idt n handler n in
      (gate.kernel_cs + 7 ≤ (setup_gdt address).size)
      × ((e : GdtEntry) × (selected_entry gate.kernel_cs ≡ some e)
          × (bit_and e.access 0x98 ≡ 0x98)
          × (bit_and e.access 0x60 ≡ 0)
          × (bit_and e.granularity 0x20 ≡ 0x20))
unfolding idt_set_entry setup_gdt
idt_set_entry-selector idt n handler address =
    let here : (n == n) ≡ true = ground arith in
    rw here (omega arith, (flat 0x9a 0xa0, refl, refl, refl, refl))
