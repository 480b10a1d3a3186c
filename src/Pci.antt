-- ===== src/Pci.antt =====
-- PCI configuration space and its enumeration: kernel/src/system/pci/pci.cpp. The port instructions of
-- IO.cpp are the processor's: they are the operations `Ports` on a state of the machine. What is done
-- with a controller that is found (`ProbePort`) is the argument `probe`; the screen is left out.
pub mod Address
pub mod Enumerate
pub mod Names
use mad_os.Base.{
  ℕ, zero, suc, ◌+◌, ◌*◌, ◌^◌, ◌<<◌, u32, bit_and, bit_or, Bool, true, false, not, ◌&&◌, ◌==◌,
  if◌then◌else◌,
}

-- The functions of IO.cpp; an input gives the state after it and the value.
pub record Ports (S : Type 0) : Type 0 where
  pub outb : S → (port value : ℕ) → S
  pub outw : S → (port value : ℕ) → S
  pub outl : S → (port value : ℕ) → S
  pub inb : S → (port : ℕ) → S × ℕ
  pub inw : S → (port : ℕ) → S × ℕ
  pub inl : S → (port : ℕ) → S × ℕ

abbrev pub config_addr : ℕ
config_addr = 0xcf8

abbrev pub config_data : ℕ
config_data = 0xcfc

-- `PCI_MAKE_ID`
unfoldable pub make_id : (bus dev func : ℕ) → ℕ
make_id bus dev func = bit_or (bit_or (bus << 16) (dev << 11)) (func << 8)

-- `0x80000000 | id | (reg & 0xfc)`
unfoldable pub config_address : (id reg : ℕ) → ℕ
config_address id reg = u32 (bit_or (bit_or 0x80000000 id) (bit_and reg 0xfc))

-- `for (i = …; …; ++i)`, with the rounds left.
unfoldable pub for_each : {S : Type 0} → ℕ → (ℕ → S → S) → ℕ → S → S
for_each zero body i s = s
for_each (suc left) body i s = for_each left body (i + 1) (body i s)

module _ {S : Type 0} (ports : Ports S) where
  unfoldable pub pci_read8 : S → (id reg : ℕ) → S × ℕ
  pci_read8 s id reg =
      ports.inb (ports.outl s config_addr (config_address id reg)) (config_data + bit_and reg 0x03)

  unfoldable pub pci_read16 : S → (id reg : ℕ) → S × ℕ
  pci_read16 s id reg =
      ports.inw (ports.outl s config_addr (config_address id reg)) (config_data + bit_and reg 0x02)

  unfoldable pub pci_read32 : S → (id reg : ℕ) → S × ℕ
  pci_read32 s id reg = ports.inl (ports.outl s config_addr (config_address id reg)) config_data

  unfoldable pub pci_write8 : S → (id reg value : ℕ) → S
  pci_write8 s id reg value =
      ports.outb (ports.outl s config_addr (config_address id reg)) (config_data + bit_and reg 0x03)
        value

  unfoldable pub pci_write16 : S → (id reg value : ℕ) → S
  pci_write16 s id reg value =
      ports.outw (ports.outl s config_addr (config_address id reg)) (config_data + bit_and reg 0x02)
        value

  unfoldable pub pci_write32 : S → (id reg value : ℕ) → S
  pci_write32 s id reg value =
      ports.outl (ports.outl s config_addr (config_address id reg)) config_data value

  -- `probe` is `ProbePort`, on the address in `BAR5`.
  unfoldable pub pci_visit : (S → ℕ → S) → (bus dev func : ℕ) → S → S
  pci_visit probe bus dev func s =
      let id = make_id bus dev func in
      let (s, vendor_id) = pci_read16 s id 0x00 in
      if vendor_id == 0xffff
      then s
      else let (s, device_id) = pci_read16 s id 0x02 in
        let (s, prog_intf) = pci_read8 s id 0x09 in
        let (s, subclass) = pci_read8 s id 0x0a in
        let (s, class_code) = pci_read8 s id 0x0b in
        let (s, bar5) = pci_read32 s id 0x24 in
        if (class_code == 0x01) && (subclass == 0x6) && (prog_intf == 0x1) then probe s bar5 else s

  -- The body of the loop over the devices.
  unfoldable pub visit_device : (S → ℕ → S) → (bus dev : ℕ) → S → S
  visit_device probe bus dev s =
      let (s, header_type) = pci_read8 s (make_id bus dev 0) 0x0e in
      let func_count = if bit_and header_type 0x80 == 0 then 1 else 8 in
      for_each func_count (λ func s. pci_visit probe bus dev func s) 0 s

  unfoldable pub enumerate_pic : (S → ℕ → S) → S → S
  enumerate_pic probe s =
      for_each 256 (λ bus s. for_each 32 (λ dev s. visit_device probe bus dev s) 0 s) 0 s
