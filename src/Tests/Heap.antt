-- ===== src/Tests/Heap.antt =====
-- A heap on the first free page of a small machine, and one whose only block is in use. The page
-- bitmap of 4 bytes lies at 0x8000, and its first 3 pages are in use.
use mad_os.Base.{
  ℕ, ◌+◌, ◌*◌, ◌-◌, ◌^◌, ◌≡◌, ◌≤◌, ◌<◌, inl, inr, refl, true, false, [], ◌∷◌, arith, ◌==◌,
  if◌then◌else◌,
}
use mad_os.Base.Run.{done}
use mad_os.Memory.{Memory}
use mad_os.Frames.{Frames, request_page}
use mad_os.Heap.{
  Heap, ahead, mem, block_at, set_size, set_free, new_block, initialize_heap, kmalloc, kfree,
  round_up,
}
use mad_os.Heap.Chain.{Cell}
use mad_os.Heap.Parts.{IsChain, IsHeap, need_of, taken, rest}
use mad_os.Heap.Allocate.{Allocates, kmalloc-first_fit, kmalloc-IsHeap}
use mad_os.Heap.RoundTrip.{kfree-kmalloc}
use mad_os.Heap.Expand.{page_cell, HasPage, initialize_heap-IsHeap}
use mad_os.Heap.Grow.{fits_page, kmalloc-grows}
use mad_os.Heap.Collect.{free_cell, need_after, kmalloc-collects}
use mad_os.Heap.Fresh.{kmalloc-null, kmalloc-outside}

abbrev memory : Memory
memory x = if x == 0x8000 then 0b11100000 else 0

abbrev frames : Frames
frames = record {
  mem = memory;
  page_bitmap = record { size = 4; buffer = 0x8000 };
  allocated_memory = 0x3000;
  reserved_memory = 0;
  free_memory = 0x1d000;
  is_initialized = true;
  bitmap_index = 1;
  memory_map_size = 0x20000;
}

abbrev after : Frames
after = (request_page frames).0

got : request_page frames ≡ (after, 0x3000)
unfolding request_page mad_os.Bitmap.get mad_os.Bitmap.set mad_os.Frames.allocate_page
got = refl

abbrev fresh : Heap
fresh = initialize_heap frames

fresh-IsHeap : IsHeap fresh (page_cell 0x3000 ∷ [])
fresh-IsHeap = initialize_heap-IsHeap frames after 0x3000 got (omega arith) (omega arith)

need_of_100 : need_of 100 ≡ 136
unfolding round_up
need_of_100 = refl

clean : (block_at (mem fresh) (ahead 0x3000 (need_of 100))).next ≡ 0
unfolding initialize_heap block_at mad_os.Memory.load new_block mad_os.Heap.set_next
    mad_os.Memory.store mad_os.Memory.store8 round_up request_page mad_os.Bitmap.get
    mad_os.Heap.set_prev set_free set_size mad_os.Frames.allocate_page mad_os.Bitmap.set
clean = refl

cut : need_of 100 < 4120
cut = omega (arith, need_of_100)

kmalloc-first_fit_example :
    (t : Heap) × (ptr : ℕ) × (kmalloc 1 100 fresh ≡ done (t, ptr))
    × Allocates 100 [] (page_cell 0x3000) fresh t ptr
kmalloc-first_fit_example =
    kmalloc-first_fit 0 100 fresh [] (page_cell 0x3000) [] (omega arith) (omega arith) fresh-IsHeap
      tt (fits_page (need_of 100) 0x3000 (omega (arith, cut))) cut clean

kmalloc-IsHeap_example :
    (t : Heap) × (ptr : ℕ) × (kmalloc 1 100 fresh ≡ done (t, ptr))
    × IsHeap t (taken (page_cell 0x3000) (need_of 100) ∷ rest (page_cell 0x3000) (need_of 100) ∷ [])
kmalloc-IsHeap_example =
    kmalloc-IsHeap 0 100 fresh [] (page_cell 0x3000) (omega arith) (omega arith) fresh-IsHeap tt
      (fits_page (need_of 100) 0x3000 (omega (arith, cut))) cut clean (omega arith)

kfree-kmalloc_example :
    (t : Heap) × (ptr : ℕ) × (kmalloc 1 100 fresh ≡ done (t, ptr))
    × IsHeap (kfree t ptr) (page_cell 0x3000 ∷ [])
kfree-kmalloc_example =
    kfree-kmalloc 0 100 fresh [] (page_cell 0x3000) (omega arith) (omega arith) fresh-IsHeap tt refl
      (fits_page (need_of 100) 0x3000 (omega (arith, cut))) cut clean

kmalloc-null_example : (kmalloc 1 (2 ^ 64 - 5) fresh ≡ done (fresh, 0)) × (kfree fresh 0 ≡ fresh)
kmalloc-null_example = kmalloc-null 0 (2 ^ 64 - 5) fresh (inr (omega arith, omega arith))

need_of_200 : need_of 200 ≡ 232
unfolding round_up
need_of_200 = refl

need_of_8 : need_of 8 ≡ 40
unfolding round_up
need_of_8 = refl

clean_200 : (block_at (mem fresh) (ahead 0x3000 (need_of 200))).next ≡ 0
unfolding initialize_heap block_at mad_os.Memory.load new_block mad_os.Heap.set_next
    mad_os.Memory.store mad_os.Memory.store8 round_up request_page mad_os.Bitmap.get
    mad_os.Heap.set_prev set_free set_size mad_os.Frames.allocate_page mad_os.Bitmap.set
clean_200 = refl

kmalloc-outside_example :
    (t : Heap) × (p : ℕ) × (u : Heap) × (q : ℕ) × (kmalloc 1 200 fresh ≡ done (t, p))
    × (kmalloc 1 8 t ≡ done (u, q))
    × (0x3000 + 4096 ≤ q)
kmalloc-outside_example =
    kmalloc-outside 0 200 8 frames after 0x3000 got (omega arith) (omega arith) (omega arith)
      (omega arith) (omega arith) (omega arith) (omega (arith, need_of_200, need_of_8)) clean_200

-- One block, in use, on page 2.
abbrev full : Heap
full = record {
  frames = record frames { mem = set_free (new_block memory 0x2000 0) 0x2000 false };
  heap_start = 0x2000;
  heap_end = 0x2000;
  block_count = 1;
}

abbrev used_cell : Cell
used_cell = record { addr = 0x2000; size = 4120; free = false }

full-IsChain : IsChain full (used_cell ∷ [])
unfolding initialize_heap block_at mad_os.Memory.load new_block mad_os.Heap.set_next
    mad_os.Memory.store mad_os.Memory.store8 round_up request_page mad_os.Bitmap.get
    mad_os.Heap.set_prev set_free set_size mad_os.Frames.allocate_page mad_os.Bitmap.set
full-IsChain = record {
  starts = refl;
  counted = refl;
  short = omega arith;
  chain = (omega arith, refl, tt);
}

full-HasPage : HasPage full [] used_cell (request_page full.frames).0 0x3000
unfolding initialize_heap block_at mad_os.Memory.load new_block mad_os.Heap.set_next
    mad_os.Memory.store mad_os.Memory.store8 round_up request_page mad_os.Bitmap.get
    mad_os.Heap.set_prev set_free set_size mad_os.Frames.allocate_page mad_os.Bitmap.set
full-HasPage = record {
  got = refl;
  nonnull = omega arith;
  low = omega arith;
  last_low = omega arith;
  last_apart = inl (omega arith);
  last_same = refl;
  apart = tt;
  same = tt;
}

need_of-need_of_100 : need_of (need_of 100) ≤ 4120
unfolding round_up
need_of-need_of_100 = omega arith

kmalloc-grows_example : (t : Heap) × (kmalloc 2 100 full ≡ done (t, ahead 0x3000 24))
kmalloc-grows_example =
    kmalloc-grows 0 100 full [] used_cell (request_page full.frames).0 0x3000 (omega arith)
      need_of-need_of_100 (omega arith) full-IsChain (omega arith) tt refl full-HasPage

-- The free page 3 and the page 4 serve 4352 bytes together.
fresh-HasPage : HasPage fresh [] (free_cell 0x3000 4120) (request_page fresh.frames).0 0x4000
unfolding initialize_heap block_at mad_os.Memory.load new_block mad_os.Heap.set_next
    mad_os.Memory.store mad_os.Memory.store8 round_up request_page mad_os.Bitmap.get
    mad_os.Heap.set_prev set_free set_size mad_os.Frames.allocate_page mad_os.Bitmap.set
    mad_os.Base.Bits.write_mask
fresh-HasPage = record {
  got = refl;
  nonnull = omega arith;
  low = omega arith;
  last_low = omega arith;
  last_apart = inl (omega arith);
  last_same = refl;
  apart = tt;
  same = tt;
}

need_after_two : need_after 1 4352 ≤ 4120 + 1 * 4120
unfolding round_up
need_after_two = omega arith

kmalloc-collects_example : (t : Heap) × (kmalloc 2 4352 fresh ≡ done (t, ahead 0x3000 24))
kmalloc-collects_example =
    kmalloc-collects 1 2 4352 fresh 0x3000 4120 (omega arith) (omega arith) (omega arith)
      (omega arith) fresh-IsHeap.chained ((request_page fresh.frames).0, 0x4000, fresh-HasPage, tt)
      need_after_two
