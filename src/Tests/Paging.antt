-- ===== src/Tests/Paging.antt =====
-- Page table entries and indices.
use mad_os.Base.{
  ℕ, zero, ◌+◌, ◌*◌, ◌/◌, ◌%◌, ◌^◌, ◌<◌, ◌≡◌, ◌≢◌, refl, Bool, true, false, arith, ◌==◌,
}
use mad_os.Base.Bits.{bit, digit}
use mad_os.Paging.Entry.{present, read_write, nx, set_flag, get_flag, set_address, get_address}
use mad_os.Paging.Entry.Laws.{set_address_lem}
use mad_os.Paging.Indexer.{page_map_indexer, page_map_indexer_digits}

entry_of_page : set_flag (set_flag (set_address 0 0x1234) present true) read_write true ≡ 0x1234003
unfolding set_flag set_address mad_os.Base.Bits.write_mask
entry_of_page = refl

indices : page_map_indexer 0x8080604567 ≡ record { pdp_i = 1; pd_i = 2; pt_i = 3; p_i = 4 }
unfolding page_map_indexer
indices = refl

-- `getFlag(NX)` of an entry that is present and has no `NX`.
get_flag_nx : get_flag 1 nx ≡ true
unfolding get_flag
get_flag_nx = refl

set_address_lem_example :
    (get_address (set_address 0x8000000000abc00f 0x12345) ≡ 0x12345 % 2 ^ 40)
    × (set_address 0x8000000000abc00f 0x12345 % 2 ^ 12 ≡ 0x8000000000abc00f % 2 ^ 12)
    × (set_address 0x8000000000abc00f 0x12345 / 2 ^ 52 ≡ 0x8000000000abc00f / 2 ^ 52)
    × (set_address 0x8000000000abc00f 0x12345 < 2 ^ 64)
set_address_lem_example = set_address_lem 0x8000000000abc00f 0x12345 (omega arith)

page_map_indexer_digits_example :
    let i = page_map_indexer 0x8080604567 in
    (i.pdp_i < 512)
    × (i.pd_i < 512)
    × (i.pt_i < 512)
    × (i.p_i < 512)
    × (((i.pdp_i * 512 + i.pd_i) * 512 + i.pt_i) * 512 + i.p_i ≡ 0x8080604567 / 4096 % 2 ^ 36)
page_map_indexer_digits_example = page_map_indexer_digits 0x8080604567
