-- ===== src/Interrupts/Installed.antt =====
-- After `InstallISR` every vector leads to its stub.
use mad_os.Interrupts.{IdtEntry, Idt, idt_set_entry, handler_of, install_from, install_isr}
use mad_os.Base.{
  ℕ, zero, suc, ◌+◌, ◌*◌, ◌^◌, ◌≤◌, ◌<◌, ◌≡◌, ◌≢◌, ◌⊎◌, inl, inr, refl, ◌∙◌, true, false, ◌==◌,
  arith,
}
use native.Mathlib.Decide.{ℕ_discrete}

-- The address to which the processor jumps for an entry.
unfoldable pub offset_of : IdtEntry → ℕ
offset_of e = e.isr_low + e.isr_mid * 2 ^ 16 + e.isr_high * 2 ^ 32

-- What a gate of ring 0 for a handler says: a present interrupt gate in the kernel's code segment, with
-- no stack of its own.
pub record IsGate (handler : ℕ) (e : IdtEntry) : Type 0 where
  pub offset : offset_of e ≡ handler
  pub segment : e.kernel_cs ≡ 8
  pub kind : e.attributes ≡ 0x8e
  pub no_stack : e.ist ≡ 0

idt_set_entry_self :
    (idt : Idt) (n handler : ℕ) → handler < 2 ^ 64 → IsGate handler (idt_set_entry idt n handler n)
unfolding idt_set_entry offset_of
idt_set_entry_self idt n handler h =
    let self : (n == n) ≡ true = ground arith in
    rw self (record { offset = omega arith; segment = refl; kind = refl; no_stack = refl })

idt_set_entry_other : (idt : Idt) (n k handler : ℕ) → k ≢ n → idt_set_entry idt n handler k ≡ idt k
unfolding idt_set_entry
idt_set_entry_other idt n k handler ne = let other : (k == n) ≡ false = ground arith in rw other

module _ (isr error_isr : ℕ → ℕ) (small : (n : ℕ) → handler_of isr error_isr n < 2 ^ 64) where
  install_from_lem :
      (left n : ℕ) (idt : Idt) (k : ℕ)
      → ((n ≤ k
          → k < n + left
          → IsGate (handler_of isr error_isr k) (install_from isr error_isr left n idt k)))
        × ((k < n) ⊎ (n + left ≤ k) → install_from isr error_isr left n idt k ≡ idt k)
  unfolding install_from
  install_from_lem zero n idt k = ((λ lo hi. absurd (omega arith)), (λ out. refl))
  install_from_lem (suc left) n idt k =
      let idt' = idt_set_entry idt n (handler_of isr error_isr n) in
      let (inside, outside) = install_from_lem left (n + 1) idt' k in
      (
        (λ lo hi. elim (ℕ_discrete n k) [
          | yes e ↦
              let same = outside (inl (omega arith)) in
              rw (same, ← e) (idt_set_entry_self idt n (handler_of isr error_isr n) (small n))
          | no ne ↦ inside (omega arith) (omega arith)
        ]),
        (λ out.
            outside (wider n k out)
            ∙ idt_set_entry_other idt n k (handler_of isr error_isr n) (apart n k out)),
      )
    where
      wider : (n k : ℕ) → (k < n) ⊎ (n + suc left ≤ k) → (k < n + 1) ⊎ (n + 1 + left ≤ k)
      wider n k (inl h) = inl (omega arith)
      wider n k (inr h) = inr (omega arith)

      apart : (n k : ℕ) → (k < n) ⊎ (n + suc left ≤ k) → k ≢ n
      apart n k (inl h) e = omega arith
      apart n k (inr h) e = omega arith

  -- If the stubs have 64-bit addresses, then after `InstallISR` the entry of each of the 256 vectors is a
  -- kernel interrupt gate whose offset, put together from its three parts, is the address of the vector's
  -- stub, and nothing behind the table is written.
  pub install_isr-IsGate :
      (idt : Idt)
      → ((k : ℕ) → k < 256 → IsGate (handler_of isr error_isr k) (install_isr isr error_isr idt k))
        × ((k : ℕ) → 256 ≤ k → install_isr isr error_isr idt k ≡ idt k)
  unfolding install_isr
  install_isr-IsGate idt = (
    (λ k h. (install_from_lem 256 0 idt k).0 (omega arith) (omega arith)),
    (λ k h. (install_from_lem 256 0 idt k).1 (inr (omega arith))),
  )
