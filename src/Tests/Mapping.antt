-- ===== src/Tests/Mapping.antt =====
-- A root table of zeros in page 1 and a bitmap of 4 bytes in page 8: pages 0, 1, 2 and 8 of 32 are
-- in use.
use mad_os.Base.{ℕ, ◌*◌, ◌/◌, ◌<◌, ◌≡◌, inl, refl, true, false, arith, ◌==◌, if◌then◌else◌}
use mad_os.Base.Run.{done}
use mad_os.Memory.{Memory}
use mad_os.Bitmap.{Bitmap}
use mad_os.Frames.{Frames, page_used}
use mad_os.Paging.Entry.{present, get_flag}
use mad_os.Paging.Walk.{entry_at}
use mad_os.Paging.Map.{map_memory}
use mad_os.Paging.Map.Entries.{entry_at_cong}
use mad_os.Paging.Map.Tree.{Apart, Sound, Tree}
use mad_os.Paging.Map.Correct.{Maps, map_memory-Maps}

abbrev memory : Memory
memory x = if x == 0x8000 then 0b11100000 else if x == 0x8001 then 0b10000000 else 0

abbrev pub frames : Frames
frames = record {
  mem = memory;
  page_bitmap = record { size = 4; buffer = 0x8000 };
  allocated_memory = 0x4000;
  reserved_memory = 0;
  free_memory = 0x1c000;
  is_initialized = true;
  bitmap_index = 1;
  memory_map_size = 0x20000;
}

used_pages : (page_used frames 0 ≡ true) × (page_used frames 1 ≡ true) × (page_used frames 8 ≡ true)
unfolding mad_os.Bitmap.get
used_pages = (refl, refl, refl)

free_pages :
    (page_used frames 3 ≡ false) × (page_used frames 4 ≡ false) × (page_used frames 5 ≡ false)
unfolding mad_os.Bitmap.get
free_pages = (refl, refl, refl)

pub frames-Sound : Sound frames
frames-Sound = record {
  bytes = λ x. ground arith;
  low = λ i h. let e : i ≡ 0 = omega arith in rw e used_pages.0;
  small = omega arith;
  bitmap_used = λ x lo up. let e : x / 4096 ≡ 8 = omega arith in rw e used_pages.2;
}

abbrev own : ℕ → ℕ
own p = if p == 1 then 1 else 0

is_root : (p : ℕ) → 0 < own p → p ≡ 1
is_root p h = ground arith

root_zero : (i : ℕ) → i < 512 → get_flag (entry_at memory 1 i) present ≡ false
unfolding get_flag mad_os.Memory.load
root_zero i h =
    let zeros : entry_at memory 1 i ≡ entry_at (λ _. 0) 1 i =
      entry_at_cong memory (λ _. 0) 1 i h (λ x e. ground arith) in
    rw zeros

root-Apart : Apart frames.page_bitmap 1
root-Apart x e = inl (omega arith)

frames-Tree : Tree own frames
frames-Tree = record {
  table_used = λ p h. rw (is_root p h) used_pages.1;
  table_apart = λ p h. rw (is_root p h) root-Apart;
  child = λ p i h small hi there.
      let there' : get_flag (entry_at memory 1 i) present ≡ true = rw (is_root p h) at there in
      ground (arith, root_zero i hi, there');
}

map_memory-Maps_example :
    (t : Frames) × (map_memory frames (1 * 4096) 0x8080604567 0x2abc ≡ done t)
    × Maps 1 0x8080604567 0x2abc 6 frames t
map_memory-Maps_example =
    map_memory-Maps own frames 1 0x8080604567 0x2abc 3 4 5 frames-Tree frames-Sound refl
      (omega arith) (omega arith) (omega arith) free_pages.0 free_pages.1 free_pages.2
