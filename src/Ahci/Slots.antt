-- ===== src/Ahci/Slots.antt =====
-- `find_cmdslot` finds the lowest free command slot.
use mad_os.Ahci.{Port, slot_loop, command_slots, find_cmdslot}
use mad_os.Base.{
  ℕ, zero, suc, ◌+◌, ◌-◌, ◌*◌, ◌/◌, ◌%◌, ◌^◌, ◌<◌, ◌≡◌, ◌⊎◌, inl, inr, refl, sym, ap, ◌∙◌, ◌==◌,
  bit_and, bit_or, some, none, Bool-cases, arith,
}
use mad_os.Base.Bits.{bit, bit-bit_or, bit_and_mask, bit_and_fields, bit_and-zero}

-- Slot `i` is in use: its bit is set among the active or among the issued commands.
abbrev pub IsBusy : Port → ℕ → Type 0
IsBusy port i = (bit port.sact i ≡ 1) ⊎ (bit port.ci i ≡ 1)

slot_loop_lem :
    (left : ℕ) (slots i : ℕ)
    → ((k : ℕ) × (k < left)
        × (slot_loop left slots i ≡ some (i + k))
        × (bit slots k ≡ 0)
        × ((j : ℕ) → j < k → bit slots j ≡ 1))
      ⊎ ((slot_loop left slots i ≡ none) × ((j : ℕ) → j < left → bit slots j ≡ 1))
unfolding slot_loop bit
slot_loop_lem zero slots i = inr (refl, λ j h. absurd (omega arith))
slot_loop_lem (suc left) slots i = elim (Bool-cases (bit_and slots 1 == 0)) [
  | inl free ↦ inl (
    0,
    omega arith,
    rw free (ap some (omega arith)),
    ground (arith, bit_and_mask 1 slots),
    λ j h. absurd (omega arith),
  )
  | inr busy ↦
      let first : slots % 2 ≡ 1 = ground (arith, bit_and_mask 1 slots) in
      elim (slot_loop_lem left (slots / 2) (i + 1)) [
        | inl (k, lt, run, zero_bit, below) ↦ inl (
          suc k,
          omega arith,
          rw busy (run ∙ ap some (omega arith)),
          zero_bit,
          earlier slots (suc k) first (λ j h. below j (omega arith)),
        )
        | inr (run, below) ↦
            inr (rw busy run, earlier slots (suc left) first (λ j h. below j (omega arith)))
      ]
]
  where
    earlier :
        (slots n : ℕ)
        → slots % 2 ≡ 1
        → ((j : ℕ) → suc j < n → bit (slots / 2) j ≡ 1)
        → (j : ℕ) → j < n
        → bit slots j ≡ 1
    earlier slots n first below zero h = first
    earlier slots n first below (suc j) h = below j h

-- The command slots that the controller has, as AHCI documents its capability register: bits 8 to 12
-- hold one less.
abbrev pub slots_of : (cap : ℕ) → ℕ
slots_of cap = cap / 2 ^ 8 % 32 + 1

command_slots-slots_of : (cap : ℕ) → command_slots cap ≡ (slots_of cap - 1) % 16
command_slots-slots_of cap =
    let whole : cap / 256 * 2 ^ 8 + cap % 256 ≡ cap = omega arith in
    let split = bit_and_fields 8 (cap / 256) (cap % 256) 15 0 (omega arith) (omega arith) in
    let joined : bit_and cap 0xf00 ≡ bit_and (cap / 256) 15 * 2 ^ 8 + bit_and (cap % 256) 0 =
      ap (λ (x : ℕ). bit_and x 0xf00) (sym whole) ∙ split in
    omega (arith, joined, bit_and_mask 4 (cap / 256), bit_and-zero (cap % 256))

-- A controller with `n` slots has its first `(n - 1) % 16` looked at, so never its last one, nor more
-- than fifteen: `find_cmdslot` returns the lowest of these whose bit is neither in `sact` nor in `ci`,
-- and `-1` exactly if all of these are in use.
pub find_cmdslot_lem :
    (cap : ℕ) (port : Port)
    → ((k : ℕ) × (k < (slots_of cap - 1) % 16)
        × (find_cmdslot cap port ≡ some k)
        × ¬ IsBusy port k
        × ((j : ℕ) → j < k → IsBusy port j))
      ⊎ ((find_cmdslot cap port ≡ none) × ((j : ℕ) → j < (slots_of cap - 1) % 16 → IsBusy port j))
unfolding find_cmdslot
find_cmdslot_lem cap port = elim (slot_loop_lem (command_slots cap) (bit_or port.sact port.ci) 0) [
  | inl (k, lt, run, free, below) ↦ inl (
    k,
    omega (arith, lt, seen),
    run ∙ ap some (omega arith),
    not_busy k free,
    λ j h. busy j (below j h),
  )
  | inr (run, below) ↦ inr (run, λ j h. busy j (below j (omega (arith, h, seen))))
]
  where
    seen : command_slots cap ≡ (slots_of cap - 1) % 16
    seen = command_slots-slots_of cap

    busy : (j : ℕ) → bit (bit_or port.sact port.ci) j ≡ 1 → IsBusy port j
    busy j h = ground (arith, bit-bit_or port.sact port.ci j)

    not_busy : (j : ℕ) → bit (bit_or port.sact port.ci) j ≡ 0 → ¬ IsBusy port j
    not_busy j h (inl e) = omega (arith, bit-bit_or port.sact port.ci j)
    not_busy j h (inr e) = omega (arith, bit-bit_or port.sact port.ci j)
