-- ===== src/Pci/Names.antt =====
-- The names of kernel/src/system/pci/pciDevicesInfo.cpp. A name is a text of the program, or what
-- `to_hstring` writes for a number of 16 bits.
use mad_os.Base.{ℕ, ◌≡◌, ◌≢◌, ◌↔◌, ◌⊎◌, refl, ◌==◌, if◌then◌else◌, List, codes, arith}

pub data Name : Type 0 where
  text : List ℕ → Name
  number : ℕ → Name

unfoldable pub get_vendor_name : ℕ → Name
get_vendor_name vendor =
    if vendor == 0x8086
    then text (codes "Intel")
    else if vendor == 0x1028
    then text (codes "Dell")
    else if vendor == 0x1043
    then text (codes "Asus")
    else if vendor == 0x1022
    then text (codes "AMD")
    else if vendor == 0x1025
    then text (codes "Acer")
    else text (codes "Unknown")

unfoldable pub get_function : (class_code sub_class : ℕ) → Name
get_function class_code sub_class =
    if class_code == 0x1
    then (if sub_class == 0x6
        then text (codes "Serial ATA Controller")
        else if sub_class == 0x8
        then text (codes "Storage Controller")
        else number sub_class)
    else if class_code == 0x2
    then (if sub_class == 0x0
        then text (codes "Ethernet Controller")
        else if sub_class == 0x1
        then text (codes "Token Ring Controller")
        else if sub_class == 0x2
        then text (codes "FDDI Controller")
        else if sub_class == 0x3
        then text (codes "ATM Controller")
        else if sub_class == 0x4
        then text (codes "ISDN Controller")
        else number sub_class)
    else if class_code == 0x3
    then (if sub_class == 0x0
        then text (codes "VGA Controller")
        else text (codes "Display Controller"))
    else if class_code == 0x6
    then (if sub_class == 0x0
        then text (codes "Host Bridge")
        else if sub_class == 0x1
        then text (codes "ISA Bridge")
        else if sub_class == 0x4
        then text (codes "PCI-to-PCI Bridge")
        else if sub_class == 0x9
        then text (codes "PCI-to-PCI Bridge")
        else number sub_class)
    else if class_code == 0xc
    then (if sub_class == 0x3
        then text (codes "USB Controller")
        else text (codes "Serial Bus Cotroller"))
    else number class_code

unfoldable pub get_device_name : (vendor device : ℕ) → Name
get_device_name vendor device =
    if vendor == 0x8086
    then (if device == 0x29c0
        then text (codes "Express DRAM Controller")
        else if device == 0x2918
        then text (codes "LPC Interface Controller")
        else if device == 0x2922
        then text (codes "6 port SATA Controller [AHCI mode]")
        else if device == 0x2930
        then text (codes "SMBus Controller")
        else number device)
    else number device

-- `case 0xc` of `getInterface`, and what follows it.
unfoldable pub usb_interface : (class_code sub_class prog_if : ℕ) → Name
usb_interface class_code sub_class prog_if =
    if sub_class == 0x3
    then (if prog_if == 0x0
        then text (codes "UHCI Controller")
        else if prog_if == 0x10
        then text (codes "OHCI Controller")
        else if prog_if == 0x20
        then text (codes "EHCI (USB2) Controller")
        else if prog_if == 0x30
        then text (codes "XHCI (USB3) Controller")
        else if prog_if == 0x80
        then text (codes "Unspecified")
        else if prog_if == 0xfe
        then text (codes "USB Device (Not a host controller)")
        else number class_code)
    else number class_code

-- `case 0x6` has no `break`: a bridge of another kind goes on with `case 0xc`.
unfoldable pub get_interface : (class_code sub_class prog_if : ℕ) → Name
unfolding usb_interface
get_interface class_code sub_class prog_if =
    if class_code == 0x1
    then (if sub_class == 0x6
        then (if prog_if == 0x0
            then text (codes "Vendor Specific Interface")
            else if prog_if == 0x1
            then text (codes "AHCI 1.0")
            else if prog_if == 0x2
            then text (codes "Serial Storage Bus")
            else number prog_if)
        else number prog_if)
    else if class_code == 0x6
    then (if sub_class == 0x4
        then (if prog_if == 0x0
            then text (codes "Normal Decode")
            else text (codes "Subtractive Decode"))
        else usb_interface class_code sub_class prog_if)
    else if class_code == 0xc
    then usb_interface class_code sub_class prog_if
    else number class_code

-- The interface is named "AHCI 1.0" exactly for class 1, subclass 6, interface 1.
pub get_interface-ahci :
    (c s p : ℕ) → (get_interface c s p ≡ text (codes "AHCI 1.0")) ↔ ((c ≡ 1) × (s ≡ 6) × (p ≡ 1))
unfolding get_interface
get_interface-ahci c s p = (λ e. ground arith, λ (x, y, z). rw (x, y, z) refl)

-- A bridge of the class 6 that is none between PCI buses is named as a controller of a serial bus with
-- its subclass and interface is, but for the number that is shown where there is no name.
pub get_interface-falls_through :
    (s p : ℕ)
    → s ≢ 4
    → (get_interface 0x6 s p ≡ get_interface 0xc s p)
      ⊎ ((get_interface 0x6 s p ≡ number 0x6) × (get_interface 0xc s p ≡ number 0xc))
unfolding get_interface
get_interface-falls_through s p other = ground arith
