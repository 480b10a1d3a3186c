-- ===== src/Tests/Pci.antt =====
-- A machine whose configuration space shows one AHCI controller, as device 2 of bus 1.
use mad_os.Base.{
  ℕ, ◌+◌, ◌-◌, ◌*◌, ◌≡◌, refl, List, [], ◌∷◌, ◌++◌, get_or, arith, ◌==◌, if◌then◌else◌, ltb,
}
use mad_os.Pci.{Ports, make_id, config_address, pci_visit}
use mad_os.Pci.Enumerate.{Space}

record Machine : Type 0 where
  selected : ℕ
  probes : List ℕ

abbrev header : List ℕ
header = 0x86 ∷ 0x80 ∷ 0x22 ∷ 0x29 ∷ 0 ∷ 0 ∷ 0 ∷ 0 ∷ 2 ∷ 1 ∷ 6 ∷ 1 ∷ []

abbrev space : Space
space address offset =
    if ltb address 0x80011000
    then 0xff
    else if ltb address 0x80011024
    then get_or header (address + offset - 0x80011000) 0
    else if address == 0x80011024
    then get_or (0 ∷ 0x50 ∷ 0xbf ∷ 0xfe ∷ []) offset 0
    else 0xff

abbrev ports : Ports Machine
ports = record {
  outb = λ s port value. s;
  outw = λ s port value. s;
  outl = λ s port value. if port == 0xcf8 then record s { selected = value } else s;
  inb = λ s port. (s, space s.selected (port - 0xcfc));
  inw = λ s port. (s, space s.selected (port - 0xcfc) + 256 * space s.selected (port - 0xcfc + 1));
  inl = λ s port. (
    s,
    space s.selected 0
        + 256 * space s.selected 1
        + 65536 * (space s.selected 2 + 256 * space s.selected 3),
  );
}

abbrev probe : Machine → ℕ → Machine
probe s a = record s { probes = s.probes ++ (a ∷ []) }

offset_of : (k : ℕ) → 0xcfc + k - 0xcfc ≡ k
offset_of k = omega arith

abbrev start : Machine
start = record { selected = 0; probes = [] }

visit_controller : (pci_visit ports probe 1 2 0 start).probes ≡ 0xfebf5000 ∷ []
unfolding pci_visit mad_os.Pci.pci_read8 mad_os.Pci.pci_read16 mad_os.Pci.pci_read32 config_address
    make_id
visit_controller = refl

visit_absent : (pci_visit ports probe 0 2 0 start).probes ≡ []
unfolding pci_visit mad_os.Pci.pci_read8 mad_os.Pci.pci_read16 mad_os.Pci.pci_read32 config_address
    make_id
visit_absent = refl
