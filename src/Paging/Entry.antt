-- ===== src/Paging/Entry.antt =====
-- `PageDirectoryEntry` of kernel/src/paging/paging.cpp: a 64-bit word with flags and an address.
pub mod Laws
use mad_os.Base.{
  ℕ, ◌+◌, ◌-◌, ◌*◌, ◌/◌, ◌%◌, ◌^◌, Bool, true, false, not, ltb, ◌==◌, if◌then◌else◌, u64, ◌<<◌,
  ◌>>>◌, bit_and, bit_or,
}
use mad_os.Base.Bits.{write_mask}

-- `PT_Flags`
pub data PageFlag : Type 0 where
  present read_write user_super write_through cache_disabled accessed : PageFlag
  larger_pages custom0 custom1 custom2 nx : PageFlag

abbrev pub position : PageFlag → ℕ
position present = 0
position read_write = 1
position user_super = 2
position write_through = 3
position cache_disabled = 4
position accessed = 5
position larger_pages = 7
position custom0 = 9
position custom1 = 10
position custom2 = 11
position nx = 63

-- `(uint64_t)1 << flag`
abbrev pub bit_selector : PageFlag → ℕ
bit_selector flag = 1 << position flag

unfoldable pub set_flag : ℕ → PageFlag → Bool → ℕ
set_flag entry flag value = write_mask 64 entry (bit_selector flag) value

-- The test is `Value & bitSelector > 0`, and `>` binds tighter than `&`.
unfoldable pub get_flag : ℕ → PageFlag → Bool
get_flag entry flag = not (bit_and entry (if ltb 0 (bit_selector flag) then 1 else 0) == 0)

unfoldable pub set_address : ℕ → ℕ → ℕ
set_address entry addr =
    let low = bit_and addr 0x000000ffffffffff in
    bit_or (bit_and entry 0xfff0000000000fff) (u64 (low << 12))

unfoldable pub get_address : ℕ → ℕ
get_address entry = bit_and entry 0x000ffffffffff000 >>> 12
