-- ===== src/Ahci.antt =====
-- What kernel/src/driver/ahci/ahci.cpp decides from the registers of a port.
pub mod Slots
pub mod Command
pub mod Fis
pub mod Heads
pub mod Says
pub mod Outcome
pub mod Probe
pub mod Rebase
pub mod Identify
use mad_os.Base.{
  ℕ, zero, suc, ◌+◌, ◌/◌, ◌%◌, Bool, true, false, not, ◌==◌, if◌then◌else◌, u8, ◌>>>◌, bit_and,
  bit_or, Option, some, none,
}

-- The registers of `HBAPort` that are read here.
pub record Port : Type 0 where
  pub sig : ℕ
  pub ssts : ℕ
  pub sact : ℕ
  pub ci : ℕ

pub data DeviceType : Type 0 where
  no_device sata semb pm satapi : DeviceType

-- `CheckType`
unfoldable pub check_type : Port → DeviceType
check_type port =
    let ipm = bit_and (port.ssts >>> 8) 0x0f in
    let det = bit_and port.ssts 0x0f in
    if not (det == 3)
    then no_device
    else if not (ipm == 1)
    then no_device
    else if port.sig == 0xeb140101
    then satapi
    else if port.sig == 0xc33c0101
    then semb
    else if port.sig == 0x96690101
    then pm
    else sata

-- The loop over the slots, with the rounds left; `none` is the result `-1`.
unfoldable pub slot_loop : ℕ → (slots i : ℕ) → Option ℕ
slot_loop zero slots i = none
slot_loop (suc left) slots i =
    let rest = slot_loop left (slots >>> 1) (i + 1) in if bit_and slots 1 == 0 then some i else rest

-- `cmdslots`, which the code takes from the capability register of the controller: the low four of the
-- five bits of the field, which holds one less than the slots.
abbrev pub command_slots : ℕ → ℕ
command_slots cap = bit_and cap 0x0f00 >>> 8

unfoldable pub find_cmdslot : (cap : ℕ) → Port → Option ℕ
find_cmdslot cap port = slot_loop (command_slots cap) (bit_or port.sact port.ci) 0
