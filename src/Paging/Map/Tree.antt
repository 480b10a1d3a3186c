-- ===== src/Paging/Map/Tree.antt =====
-- The invariant of the page tables: they form a tree, and lie in pages that the allocator holds.
-- `own` gives each table the number of its place in the tree: 1 for the root, and `own p * 512 + i`
-- for the table that entry `i` of the table in page `p` names; 0 for a page that is no table.
use mad_os.Paging.Walk.{entry_at}
use mad_os.Paging.Entry.{present, get_flag, get_address}
use mad_os.Base.{ℕ, ◌+◌, ◌*◌, ◌/◌, ◌^◌, ◌≤◌, ◌<◌, ◌≡◌, ◌⊎◌, true}
use mad_os.Memory.Laws.{IsBytes}
use mad_os.Bitmap.{Bitmap}
use mad_os.Frames.{Frames, page_used, page_limit}
use mad_os.Frames.Cursor.{IsLow}

-- No byte of page `p` belongs to the bitmap.
abbrev pub Apart : Bitmap → ℕ → Type 0
Apart b p = (x : ℕ) → x / 4096 ≡ p → (x < b.buffer) ⊎ (b.buffer + b.size < x)

-- What the allocator has to keep for the tables.
pub record Sound (s : Frames) : Type 0 where
  pub bytes : IsBytes s.mem
  pub low : IsLow s
  pub small : page_limit s ≤ 2 ^ 40
  pub bitmap_used :
      (x : ℕ)
      → s.page_bitmap.buffer ≤ x
      → x ≤ s.page_bitmap.buffer + s.page_bitmap.size
      → page_used s (x / 4096) ≡ true

-- A table below the last level has a number below `2 ^ 27`; the entries of the last level are free.
pub record Tree (own : ℕ → ℕ) (s : Frames) : Type 0 where
  pub table_used : (p : ℕ) → 0 < own p → page_used s p ≡ true
  pub table_apart : (p : ℕ) → 0 < own p → Apart s.page_bitmap p
  pub child :
      (p i : ℕ)
      → 0 < own p
      → own p < 2 ^ 27
      → i < 512
      → get_flag (entry_at s.mem p i) present ≡ true
      → own (get_address (entry_at s.mem p i)) ≡ own p * 512 + i
