-- ===== src/Acpi.antt =====
-- `doChecksum` and `FindTable` of kernel/src/system/acpi/acpi.cpp, on tables in physical memory.
pub mod Correct
use mad_os.Base.{
  ℕ, zero, suc, ◌+◌, ◌-◌, ◌*◌, ◌/◌, ◌^◌, Bool, true, false, not, ◌&&◌, ◌||◌, ◌==◌, ltb, leb,
  if◌then◌else◌, u8,
}
use mad_os.Base.Run.{Run, done, fault, ◌>>=◌}
use mad_os.Memory.{Memory, load32, load64}

-- `sizeof(ACPISDTHeader)`, a packed structure.
abbrev pub header_size : ℕ
header_size = 36

-- `Length` of the table at an address.
abbrev pub table_length : Memory → ℕ → ℕ
table_length m table = load32 m (table + 4)

abbrev pub revision : Memory → ℕ → ℕ
revision m rsdp = m (rsdp + 15)

abbrev pub xsdt_address : Memory → ℕ → ℕ
xsdt_address m rsdp = load64 m (rsdp + 24)

-- The loop over the bytes, with the rounds left; `sum` is an `unsigned char`.
unfoldable pub checksum_loop : ℕ → Memory → (table i sum : ℕ) → ℕ
checksum_loop zero m table i sum = sum
checksum_loop (suc left) m table i sum =
    checksum_loop left m table (i + 1) (u8 (sum + m (table + i)))

unfoldable pub do_checksum : Memory → ℕ → Bool
do_checksum m table = checksum_loop (table_length m table) m table 0 0 == 0

-- The comparison of a table's four letters with those at `signature`, from letter `i` on.
unfoldable pub same_signature : ℕ → Memory → (table signature i : ℕ) → Bool
same_signature zero m table signature i = false
same_signature (suc left) m table signature i =
    let rest = same_signature left m table signature (i + 1) in
    if not (m (table + i) == m (signature + i)) then false else if i == 3 then true else rest

-- The address in entry `t` of the list behind the header.
abbrev pub entry : Memory → (xsdt t : ℕ) → ℕ
entry m xsdt t = load64 m (xsdt + header_size + t * 8)

-- The search, with the rounds left; 0 is the null pointer. The product `t * 8` is an `int`, and its
-- overflow undefined.
unfoldable pub find_loop : ℕ → Memory → (xsdt signature t : ℕ) → Run ℕ
find_loop zero m xsdt signature t = done 0
find_loop (suc left) m xsdt signature t =
    let rest = find_loop left m xsdt signature (t + 1) in
    if leb (2 ^ 31) (t * 8)
    then fault
    else if same_signature 4 m (entry m xsdt t) signature 0
    then done (entry m xsdt t)
    else rest

unfoldable pub find_table : Memory → (rsdp signature : ℕ) → Run ℕ
find_table m rsdp signature =
    let xsdt = xsdt_address m rsdp in
    if (revision m rsdp == 2) && not (xsdt == 0)
    then (if ltb (table_length m xsdt) header_size
        then done 0
        else if not (do_checksum m xsdt)
        then done 0
        else find_loop ((table_length m xsdt - header_size) / 8) m xsdt signature 0)
    else done 0
