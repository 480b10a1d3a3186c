-- ===== src/Tests/Frames.antt =====
-- A bitmap of 4 bytes at address 0x8000, for 32 pages, of which the first 3 are in use.
use mad_os.Base.{ℕ, ◌+◌, ◌≡◌, ◌≤◌, ◌<◌, refl, true, false, arith, u64, ◌==◌, if◌then◌else◌}
use native.Mathlib.Decide.{ℕ_discrete}
use mad_os.Memory.{Memory}
use mad_os.Bitmap.{Bitmap}
use mad_os.Frames.{
  Frames, page_used, page_of, allocate_pages, free_pages, request_page, reserve_pages,
  unreserve_pages,
}
use mad_os.Frames.Range.{Marks, allocate_pages-Marks}
use mad_os.Frames.Cursor.{IsLow, ranges-IsLow}
use mad_os.Frames.Account.{is_fresh, free_pages-allocate_pages}
use mad_os.Frames.Request.{Takes, request_page-Takes}

abbrev memory : Memory
memory x = if x == 0x8000 then 0b11100000 else 0

abbrev frames : Frames
frames = record {
  mem = memory;
  page_bitmap = record { size = 4; buffer = 0x8000 };
  allocated_memory = 0x3000;
  reserved_memory = 0;
  free_memory = 0x1d000;
  is_initialized = true;
  bitmap_index = 1;
  memory_map_size = 0x20000;
}

-- The state with no page to give.
abbrev no_frames : Frames
no_frames = record frames { page_bitmap = record { size = 0; buffer = 0x8000 }; bitmap_index = 0 }

first_used : page_used frames 0 ≡ true
unfolding mad_os.Bitmap.get
first_used = refl

frames-IsLow : IsLow frames
frames-IsLow i h = let e : i ≡ 0 = omega arith in rw e first_used

request_address : (request_page frames).1 ≡ 0x3000
unfolding request_page mad_os.Bitmap.get allocate_pages
request_address = refl

page_5_free : page_used frames 5 ≡ false
unfolding mad_os.Bitmap.get
page_5_free = refl

allocate_pages-Marks_example :
    Marks true (page_of 0x5000) (page_of 0x5000 + 4) frames (allocate_pages frames 0x5000 4)
allocate_pages-Marks_example = allocate_pages-Marks frames 0x5000 4 (omega arith)

ranges-IsLow_example :
    IsLow (allocate_pages frames 0x1000 9)
    × IsLow (free_pages frames 0x1000 9)
    × IsLow (reserve_pages frames 0x1000 9)
    × IsLow (unreserve_pages frames 0x1000 9)
ranges-IsLow_example = ranges-IsLow frames 0x1000 9 frames-IsLow

fresh_4_and_5 : (j : ℕ) → page_of 0x4000 ≤ j → j < page_of 0x4000 + 2 → is_fresh frames j ≡ true
unfolding mad_os.Bitmap.get
fresh_4_and_5 j lo hi = elim (ℕ_discrete j 4) [
  | yes e ↦ rw e
  | no ne ↦ let e : j ≡ 5 = omega arith in rw e
]

free_pages-allocate_pages_example :
    let t = free_pages (allocate_pages frames 0x4000 2) 0x4000 2 in
    ((j : ℕ) → page_used t j ≡ page_used frames j)
    × (u64 t.allocated_memory ≡ u64 frames.allocated_memory)
    × (u64 t.free_memory ≡ u64 frames.free_memory)
free_pages-allocate_pages_example =
    free_pages-allocate_pages frames 0x4000 2 (omega arith) fresh_4_and_5

request_page-Takes_example :
    (k : ℕ) × (k ≤ 5) × Takes k frames (request_page frames).0 (request_page frames).1
request_page-Takes_example =
    request_page-Takes frames 5 frames-IsLow (omega arith) (omega arith) page_5_free
