-- ===== src/Interrupts.antt =====
-- The interrupt descriptor table: `IdtSetEntry` of kernel/src/interrupts/IDT.cpp and `InstallISR` of
-- IST.cpp. The addresses of the stubs in IDT.asm are arguments: `isr n` and `error_isr n`. `RemapPIC`,
-- which is assembly, does not touch the table.
pub mod Installed
pub mod Handler
pub mod Sleep
pub mod Dispatch
pub mod Segments
use mad_os.Base.{
  ℕ, zero, suc, ◌+◌, ◌^◌, Bool, true, false, ◌&&◌, ◌||◌, ◌==◌, leb, if◌then◌else◌, u16, u32, ◌>>>◌,
}

pub record IdtEntry : Type 0 where
  pub isr_low : ℕ
  pub kernel_cs : ℕ
  pub ist : ℕ
  pub attributes : ℕ
  pub isr_mid : ℕ
  pub isr_high : ℕ
  pub reserved : ℕ

-- The array `idt`.
abbrev pub Idt : Type 0
Idt = ℕ → IdtEntry

abbrev pub interrupt_gate : ℕ
interrupt_gate = 0x8e

unfoldable pub idt_set_entry : Idt → (n handler : ℕ) → Idt
idt_set_entry idt n handler k =
    if k == n
    then record {
      isr_low = u16 handler;
      kernel_cs = 0x08;
      ist = 0;
      attributes = interrupt_gate;
      isr_mid = u16 (handler >>> 16);
      isr_high = u32 (handler >>> 32);
      reserved = 0;
    }
    else idt k

-- The vectors whose line names `errorIsr`.
abbrev pub is_error : ℕ → Bool
is_error n = (n == 8) || (leb 10 n && leb n 14)

module _ (isr error_isr : ℕ → ℕ) where
  abbrev pub handler_of : ℕ → ℕ
  handler_of n = if is_error n then error_isr n else isr n

  -- The calls of `InstallISR` from vector `n` on, one for each vector, with the calls left.
  unfoldable pub install_from : ℕ → (n : ℕ) → Idt → Idt
  install_from zero n idt = idt
  install_from (suc left) n idt = install_from left (n + 1) (idt_set_entry idt n (handler_of n))

  unfoldable pub install_isr : Idt → Idt
  install_isr idt = install_from 256 0 idt
