-- ===== src/Tests/Interrupts.antt =====
-- A table of zeros, and stubs 16 bytes apart.
use mad_os.Base.{ℕ, ◌+◌, ◌*◌, ◌%◌, ◌^◌, ◌≤◌, ◌<◌, ◌≡◌, refl, arith}
use mad_os.Interrupts.{IdtEntry, Idt, idt_set_entry, handler_of, install_isr}
use mad_os.Interrupts.Installed.{IsGate, install_isr-IsGate}

abbrev empty : Idt
empty k = record {
  isr_low = 0;
  kernel_cs = 0;
  ist = 0;
  attributes = 0;
  isr_mid = 0;
  isr_high = 0;
  reserved = 0;
}

abbrev isr : ℕ → ℕ
isr n = 0xffffffff80000000 + n % 256 * 16

abbrev error_isr : ℕ → ℕ
error_isr n = 0xffffffff80010000 + n % 256 * 16

small : (n : ℕ) → handler_of isr error_isr n < 2 ^ 64
small n = ground arith

install_isr-IsGate_example :
    ((k : ℕ) → k < 256 → IsGate (handler_of isr error_isr k) (install_isr isr error_isr empty k))
    × ((k : ℕ) → 256 ≤ k → install_isr isr error_isr empty k ≡ empty k)
install_isr-IsGate_example = install_isr-IsGate isr error_isr small empty

page_fault_mid : (install_isr isr error_isr empty 14).isr_mid ≡ 0x8001
unfolding install_isr idt_set_entry mad_os.Interrupts.install_from
page_fault_mid = refl
