-- ===== src/Frames/Cursor.antt =====
-- The search cursor of the allocator: no free page lies in front of it. Every operation keeps that.
use mad_os.Frames.Defs.{
  Frames, page_used, page_of, addr_of, allocate_page, free_page, reserve_page, unreserve_page,
  for_pages, pages_from, allocate_pages, free_pages, reserve_pages, unreserve_pages,
}
use mad_os.Frames.Laws.{
  allocate_page-WritesPage, free_page-WritesPage, reserve_page-WritesPage,
  unreserve_page-WritesPage,
}
use mad_os.Base.{
  ℕ, zero, suc, ◌+◌, ◌-◌, ◌<◌, ◌≡◌, ◌⊎◌, inl, inr, Bool-cases, true, false, ltb, if◌then◌else◌, u64,
  arith,
}
use mad_os.Bitmap.{beyond}
use mad_os.Bitmap.Laws.{set-beyond, set_within}

-- Every page below `bitmapIndex` is in use.
abbrev pub IsLow : Frames → Type 0
IsLow s = (i : ℕ) → i < s.bitmap_index → page_used s i ≡ true

allocate_page_index : (s : Frames) (addr : ℕ) → (allocate_page s addr).bitmap_index ≡ s.bitmap_index
unfolding allocate_page
allocate_page_index s addr = ground arith

pub allocate_page-IsLow : (s : Frames) (addr : ℕ) → IsLow s → IsLow (allocate_page s addr)
allocate_page-IsLow s addr low i h = ground (
  arith,
  (allocate_page-WritesPage s addr).writes.bits i,
  (allocate_page-WritesPage s addr).same_bitmap,
  allocate_page_index s addr,
  low i,
)

reserve_page_index : (s : Frames) (addr : ℕ) → (reserve_page s addr).bitmap_index ≡ s.bitmap_index
unfolding reserve_page
reserve_page_index s addr = ground arith

pub reserve_page-IsLow : (s : Frames) (addr : ℕ) → IsLow s → IsLow (reserve_page s addr)
reserve_page-IsLow s addr low i h = ground (
  arith,
  (reserve_page-WritesPage s addr).writes.bits i,
  (reserve_page-WritesPage s addr).same_bitmap,
  reserve_page_index s addr,
  low i,
)

-- After a free the cursor is at most the freed page.
free_page_index :
    (s : Frames) (addr i : ℕ)
    → i < (free_page s addr).bitmap_index
    → (i < s.bitmap_index)
      × ((page_used s (page_of addr) ≡ false)
          ⊎ (beyond s.page_bitmap (page_of addr) ≡ true)
          ⊎ (i < page_of addr))
unfolding free_page
free_page_index s addr i h = elim (Bool-cases (page_used s (page_of addr))) [
  | inr unused ↦ (rw unused at h, inl unused)
  | inl used ↦ elim (Bool-cases (beyond s.page_bitmap (page_of addr))) [
    | inl out ↦
        (rw (used, set-beyond s.mem s.page_bitmap (page_of addr) false out) at h, inr (inl out))
    | inr in_b ↦
        let h' : i < (if ltb (page_of addr) s.bitmap_index then page_of addr else s.bitmap_index) =
          rw (used, set_within s.mem s.page_bitmap (page_of addr) false in_b) at h in
        (ground arith, inr (inr (ground arith)))
  ]
]

pub free_page-IsLow : (s : Frames) (addr : ℕ) → IsLow s → IsLow (free_page s addr)
free_page-IsLow s addr low i h = ground (
  arith,
  (free_page-WritesPage s addr).writes.bits i,
  (free_page-WritesPage s addr).same_bitmap,
  free_page_index s addr i h,
  low i,
)

unreserve_page_index :
    (s : Frames) (addr i : ℕ)
    → i < (unreserve_page s addr).bitmap_index
    → (i < s.bitmap_index)
      × ((page_used s (page_of addr) ≡ false)
          ⊎ (beyond s.page_bitmap (page_of addr) ≡ true)
          ⊎ (i < page_of addr))
unfolding unreserve_page
unreserve_page_index s addr i h = elim (Bool-cases (page_used s (page_of addr))) [
  | inr unused ↦ (rw unused at h, inl unused)
  | inl used ↦ elim (Bool-cases (beyond s.page_bitmap (page_of addr))) [
    | inl out ↦
        (rw (used, set-beyond s.mem s.page_bitmap (page_of addr) false out) at h, inr (inl out))
    | inr in_b ↦
        let h' : i < (if ltb (page_of addr) s.bitmap_index then page_of addr else s.bitmap_index) =
          rw (used, set_within s.mem s.page_bitmap (page_of addr) false in_b) at h in
        (ground arith, inr (inr (ground arith)))
  ]
]

pub unreserve_page-IsLow : (s : Frames) (addr : ℕ) → IsLow s → IsLow (unreserve_page s addr)
unreserve_page-IsLow s addr low i h = ground (
  arith,
  (unreserve_page-WritesPage s addr).writes.bits i,
  (unreserve_page-WritesPage s addr).same_bitmap,
  unreserve_page_index s addr i h,
  low i,
)

module _ (op : Frames → ℕ → Frames)
    (keeps : (s : Frames) (addr : ℕ) → IsLow s → IsLow (op s addr)) where
  for_pages-IsLow : (left i : ℕ) (s : Frames) → IsLow s → IsLow (for_pages op left i s)
  unfolding for_pages
  for_pages-IsLow zero i s low = low
  for_pages-IsLow (suc left) i s low =
      for_pages-IsLow left (i + 1) (op s (addr_of i)) (keeps s (addr_of i) low)

  pages_from-IsLow : (s : Frames) (addr n : ℕ) → IsLow s → IsLow (pages_from op s addr n)
  unfolding pages_from
  pages_from-IsLow s addr n =
      for_pages-IsLow (u64 (page_of addr + n) - page_of addr) (page_of addr) s

-- Allocating, freeing, reserving and giving back ranges of pages leave no free page in front of the
-- cursor, if there was none.
pub ranges-IsLow :
    (s : Frames) (addr n : ℕ)
    → IsLow s
    → IsLow (allocate_pages s addr n)
      × IsLow (free_pages s addr n)
      × IsLow (reserve_pages s addr n)
      × IsLow (unreserve_pages s addr n)
unfolding allocate_pages free_pages reserve_pages unreserve_pages
ranges-IsLow s addr n low = (
  pages_from-IsLow allocate_page allocate_page-IsLow s addr n low,
  pages_from-IsLow free_page free_page-IsLow s addr n low,
  pages_from-IsLow reserve_page reserve_page-IsLow s addr n low,
  pages_from-IsLow unreserve_page unreserve_page-IsLow s addr n low,
)
