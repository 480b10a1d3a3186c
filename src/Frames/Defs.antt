-- ===== src/Frames/Defs.antt =====
-- The state of the page frame allocator and its operations on pages.
use mad_os.Base.{ℕ, zero, suc, ◌+◌, ◌-◌, ◌*◌, ◌/◌, ◌^◌, Bool, true, false, ltb, if◌then◌else◌, u64}
use mad_os.Memory.{Memory}
use mad_os.Bitmap
use mad_os.Bitmap.{Bitmap}

pub record Frames : Type 0 where
  pub mem : Memory
  pub page_bitmap : Bitmap
  pub allocated_memory : ℕ
  pub reserved_memory : ℕ
  pub free_memory : ℕ
  pub is_initialized : Bool
  pub bitmap_index : ℕ
  pub memory_map_size : ℕ

-- `PageBitmap[i]`
abbrev pub page_used : Frames → ℕ → Bool
page_used s i = Bitmap.get s.mem s.page_bitmap i

-- What a page's number stands for, and back.
abbrev pub page_of : ℕ → ℕ
page_of addr = addr / 4096

abbrev pub addr_of : ℕ → ℕ
addr_of i = u64 (i * 4096)

unfoldable pub allocate_page : Frames → ℕ → Frames
allocate_page s addr =
    let i = page_of addr in
    let (m, did) = Bitmap.set s.mem s.page_bitmap i true in
    if page_used s i
    then s
    else if did
    then record s {
      mem = m;
      allocated_memory = u64 (s.allocated_memory + 4096);
      free_memory = u64 (s.free_memory + 2 ^ 64 - 4096);
    }
    else s

unfoldable pub free_page : Frames → ℕ → Frames
free_page s addr =
    let i = page_of addr in
    let (m, did) = Bitmap.set s.mem s.page_bitmap i false in
    if page_used s i
    then (if did
        then record s {
          mem = m;
          allocated_memory = u64 (s.allocated_memory + 2 ^ 64 - 4096);
          free_memory = u64 (s.free_memory + 4096);
          bitmap_index = if ltb i s.bitmap_index then i else s.bitmap_index;
        }
        else s)
    else s

unfoldable pub reserve_page : Frames → ℕ → Frames
reserve_page s addr =
    let i = page_of addr in
    if page_used s i then s else record s { mem = (Bitmap.set s.mem s.page_bitmap i true).0 }

unfoldable pub unreserve_page : Frames → ℕ → Frames
unreserve_page s addr =
    let i = page_of addr in
    let (m, did) = Bitmap.set s.mem s.page_bitmap i false in
    if page_used s i
    then (if did
        then record s { mem = m; bitmap_index = if ltb i s.bitmap_index then i else s.bitmap_index }
        else s)
    else s

-- The loop that the four functions for several pages share: `i` runs over the pages left.
unfoldable pub for_pages : (Frames → ℕ → Frames) → ℕ → ℕ → Frames → Frames
for_pages op zero i s = s
for_pages op (suc left) i s = for_pages op left (i + 1) (op s (addr_of i))

-- From `startIndex` while `i < startIndex + pageCount`, a sum that wraps.
unfoldable pub pages_from : (Frames → ℕ → Frames) → Frames → ℕ → ℕ → Frames
unfolding for_pages
pages_from op s addr page_count =
    let start = page_of addr in for_pages op (u64 (start + page_count) - start) start s

unfoldable pub allocate_pages : Frames → ℕ → ℕ → Frames
allocate_pages = pages_from allocate_page

unfoldable pub free_pages : Frames → ℕ → ℕ → Frames
free_pages = pages_from free_page

unfoldable pub reserve_pages : Frames → ℕ → ℕ → Frames
reserve_pages = pages_from reserve_page

unfoldable pub unreserve_pages : Frames → ℕ → ℕ → Frames
unreserve_pages = pages_from unreserve_page

-- The loop of `RequestPage`, with the rounds left until `PageBitmap.size * 8`; the result is the
-- address, 0 for `NULL`.
unfoldable pub request_loop : ℕ → Frames → Frames × ℕ
request_loop zero s = (s, 0)
request_loop (suc left) s = elim (page_used s s.bitmap_index) [
  | true ↦ request_loop left (record s { bitmap_index = s.bitmap_index + 1 })
  | false ↦ (allocate_page s (addr_of s.bitmap_index), addr_of s.bitmap_index)
]

abbrev pub page_limit : Frames → ℕ
page_limit s = u64 (s.page_bitmap.size * 8)

unfoldable pub request_page : Frames → Frames × ℕ
unfolding request_loop
request_page s = request_loop (page_limit s - s.bitmap_index) s

unfoldable pub get_free_ram : Frames → ℕ
get_free_ram s = s.free_memory

unfoldable pub get_used_ram : Frames → ℕ
get_used_ram s = s.allocated_memory

unfoldable pub get_reserved_ram : Frames → ℕ
get_reserved_ram s = s.reserved_memory
