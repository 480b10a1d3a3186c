-- ===== src/Paging/Indexer.antt =====
-- `PageMapIndexer` of kernel/src/paging/PageMapIndexer.cpp: the four table indices of an address.
use mad_os.Base.{ℕ, ◌+◌, ◌*◌, ◌/◌, ◌%◌, ◌^◌, ◌<◌, ◌≡◌, ◌>>>◌, bit_and, arith}
use mad_os.Base.Bits.{bit_and_mask}

pub record PageMapIndexer : Type 0 where
  pub pdp_i : ℕ
  pub pd_i : ℕ
  pub pt_i : ℕ
  pub p_i : ℕ

unfoldable pub page_map_indexer : ℕ → PageMapIndexer
page_map_indexer virtual_address =
    let v1 = virtual_address >>> 12 in
    let v2 = v1 >>> 9 in
    let v3 = v2 >>> 9 in
    let v4 = v3 >>> 9 in
    record {
      pdp_i = bit_and v4 0x1ff;
      pd_i = bit_and v3 0x1ff;
      pt_i = bit_and v2 0x1ff;
      p_i = bit_and v1 0x1ff;
    }

-- The four indices are below 512 and are the digits of the page number in base 512: of a 48-bit
-- address nothing but the offset in the page is lost.
pub page_map_indexer_digits :
    (v : ℕ)
    → let i = page_map_indexer v in
      (i.pdp_i < 512)
      × (i.pd_i < 512)
      × (i.pt_i < 512)
      × (i.p_i < 512)
      × (((i.pdp_i * 512 + i.pd_i) * 512 + i.pt_i) * 512 + i.p_i ≡ v / 4096 % 2 ^ 36)
unfolding page_map_indexer
page_map_indexer_digits v =
    rw
      (
        bit_and_mask 9 (v / 2 ^ 12),
        bit_and_mask 9 (v / 2 ^ 12 / 2 ^ 9),
        bit_and_mask 9 (v / 2 ^ 12 / 2 ^ 9 / 2 ^ 9),
        bit_and_mask 9 (v / 2 ^ 12 / 2 ^ 9 / 2 ^ 9 / 2 ^ 9),
      )
      (omega arith)
