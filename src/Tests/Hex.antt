-- ===== src/Tests/Hex.antt =====
-- The word 0xbeef at 0x2000, with the byte 0x12 behind it, shown at 0x1000; the other buffer is at
-- 0x1100.
use mad_os.Base.{◌/◌, ◌%◌, ◌≡◌, inr, refl, ◌==◌, if◌then◌else◌, codes, arith}
use mad_os.Memory.{Memory}
use mad_os.Pci.Names.{get_interface, get_function, number, text}
use mad_os.Strings.Hex.{hex, to_hstring16, to_hstring16-digits}

abbrev memory : Memory
memory x =
    if x == 0x2000 then 0xef else if x == 0x2001 then 0xbe else if x == 0x2002 then 0x12 else 0

to_hstring16-digits_example :
    (to_hstring16 memory 0x2000 0x1000 0x1100 0x1000 ≡ hex (memory 0x2001 / 16))
    × (to_hstring16 memory 0x2000 0x1000 0x1100 0x1001 ≡ hex (memory 0x2001 % 16))
    × (to_hstring16 memory 0x2000 0x1000 0x1100 0x1002 ≡ hex (memory 0x2000 / 16))
    × (to_hstring16 memory 0x2000 0x1000 0x1100 0x1003 ≡ hex (memory 0x2000 % 16))
    × (to_hstring16 memory 0x2000 0x1000 0x1100 0x1004 ≡ memory 0x1004)
    × (to_hstring16 memory 0x2000 0x1000 0x1100 0xffe ≡ hex (memory 0x2002 / 16))
    × (to_hstring16 memory 0x2000 0x1000 0x1100 0xfff ≡ hex (memory 0x2002 % 16))
    × (to_hstring16 memory 0x2000 0x1000 0x1100 0x1104 ≡ 0)
to_hstring16-digits_example =
    to_hstring16-digits memory 0x2000 0x1000 0x1100 (omega arith) (inr (omega arith)) (omega arith)
      (omega arith) (omega arith) (inr (omega arith))

-- The letter B.
first_letter : hex (memory 0x2001 / 16) ≡ b'B'
first_letter = refl

bridge_as_usb : get_interface 0x6 0x3 0x0 ≡ text (codes "UHCI Controller")
unfolding get_interface
bridge_as_usb = refl

unnamed : get_function 0x6 0x80 ≡ number 0x80
unfolding get_function
unnamed = refl
