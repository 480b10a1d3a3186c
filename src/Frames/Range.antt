-- ===== src/Frames/Range.antt =====
-- The operations on several pages mark exactly the pages of their range.
use mad_os.Frames.Defs.{
  Frames, page_used, page_of, addr_of, allocate_page, free_page, reserve_page, unreserve_page,
  for_pages, pages_from, allocate_pages, free_pages, reserve_pages, unreserve_pages,
}
use mad_os.Frames.Laws.{
  WritesPage, allocate_page-WritesPage, free_page-WritesPage, reserve_page-WritesPage,
  unreserve_page-WritesPage,
}
use mad_os.Base.{
  ℕ, zero, suc, ◌+◌, ◌-◌, ◌^◌, ◌≤◌, ◌<◌, ◌≡◌, ◌⊎◌, refl, ◌∙◌, Bool, true, false, not, ◌&&◌, leb,
  ltb, if◌then◌else◌, u64, arith,
}
use mad_os.Bitmap.{beyond}

-- Whether a page lies in the range from `lo` up to `hi`, without `hi`.
abbrev pub in_range : ℕ → ℕ → ℕ → Bool
in_range lo hi j = leb lo j && ltb j hi

-- Every page of the range that the bitmap reaches has the bit `v` after the operation, and no other
-- bit, and no byte outside the bitmap, has changed.
pub record Marks (v : Bool) (lo hi : ℕ) (s t : Frames) : Type 0 where
  pub same_bitmap : t.page_bitmap ≡ s.page_bitmap
  pub bits :
      (j : ℕ)
      → page_used t j
        ≡ (if in_range lo hi j && not (beyond s.page_bitmap j) then v else page_used s j)
  pub frame :
      (x : ℕ)
      → (x < s.page_bitmap.buffer) ⊎ (s.page_bitmap.buffer + s.page_bitmap.size < x)
      → t.mem x ≡ s.mem x

-- The largest number of pages: the address of a page is below 2 ^ 64.
abbrev pub max_pages : ℕ
max_pages = 2 ^ 52

module _ (v : Bool) (op : Frames → ℕ → Frames)
    (law : (s : Frames) (addr : ℕ) → WritesPage v (page_of addr) s (op s addr)) where
  for_pages-Marks :
      (left i : ℕ) (s : Frames)
      → i + left ≤ max_pages
      → Marks v i (i + left) s (for_pages op left i s)
  unfolding for_pages
  for_pages-Marks zero i s h = record {
    same_bitmap = refl;
    bits = λ j. ground arith;
    frame = λ x _. refl;
  }
  for_pages-Marks (suc left) i s h =
      let page : page_of (addr_of i) ≡ i = omega arith in
      let first : WritesPage v i s (op s (addr_of i)) = rw page at (law s (addr_of i)) in
      let rest = for_pages-Marks left (i + 1) (op s (addr_of i)) (omega arith) in
      record {
        same_bitmap = rest.same_bitmap ∙ first.same_bitmap;
        bits = λ j. ground (arith, rest.bits j, first.writes.bits j, first.same_bitmap);
        frame = λ x out. rest.frame x (rw first.same_bitmap out) ∙ first.writes.frame x out;
      }

  -- A range that does not run over the end of the address space.
  pages_from-Marks :
      (s : Frames) (addr page_count : ℕ)
      → page_of addr + page_count ≤ max_pages
      → Marks v (page_of addr) (page_of addr + page_count) s (pages_from op s addr page_count)
  unfolding pages_from
  pages_from-Marks s addr page_count h =
      let count : u64 (page_of addr + page_count) - page_of addr ≡ page_count = omega arith in
      rw count (for_pages-Marks page_count (page_of addr) s h)

-- `AllocatePages(addr, n)` marks the `n` pages from that of `addr` on as used, where the bitmap
-- reaches them. It changes the state of no other page, and no memory outside the bitmap.
pub allocate_pages-Marks :
    (s : Frames) (addr n : ℕ)
    → page_of addr + n ≤ max_pages
    → Marks true (page_of addr) (page_of addr + n) s (allocate_pages s addr n)
unfolding allocate_pages
allocate_pages-Marks = pages_from-Marks true allocate_page allocate_page-WritesPage

pub reserve_pages-Marks :
    (s : Frames) (addr n : ℕ)
    → page_of addr + n ≤ max_pages
    → Marks true (page_of addr) (page_of addr + n) s (reserve_pages s addr n)
unfolding reserve_pages
reserve_pages-Marks = pages_from-Marks true reserve_page reserve_page-WritesPage

-- `FreePages(addr, n)` marks the `n` pages from that of `addr` on as free, where the bitmap reaches
-- them. It changes the state of no other page, and no memory outside the bitmap.
pub free_pages-Marks :
    (s : Frames) (addr n : ℕ)
    → page_of addr + n ≤ max_pages
    → Marks false (page_of addr) (page_of addr + n) s (free_pages s addr n)
unfolding free_pages
free_pages-Marks = pages_from-Marks false free_page free_page-WritesPage

pub unreserve_pages-Marks :
    (s : Frames) (addr n : ℕ)
    → page_of addr + n ≤ max_pages
    → Marks false (page_of addr) (page_of addr + n) s (unreserve_pages s addr n)
unfolding unreserve_pages
unreserve_pages-Marks = pages_from-Marks false unreserve_page unreserve_page-WritesPage
