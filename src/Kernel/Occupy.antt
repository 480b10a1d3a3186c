-- ===== src/Kernel/Occupy.antt =====
-- Allocating pages keeps the page tables: it writes to the bitmap only.
use mad_os.Paging.Map.Tree.{Apart, Sound, Tree}
use mad_os.Paging.Map.Entries.{entry_at_cong}
use mad_os.Paging.Map.Request.{allocate_page-IsBytes}
use mad_os.Paging.Map.Steps.{follow_cong, translate-Grows}
use mad_os.Paging.Walk.{entry_at, translate}
use mad_os.Base.{
  ℕ, zero, suc, ◌+◌, ◌-◌, ◌*◌, ◌/◌, ◌≤◌, ◌<◌, ◌≡◌, ◌⊎◌, inl, ap, ◌∙◌, true, false, u64, arith,
}
use mad_os.Memory.Laws.{IsBytes}
use mad_os.Frames.{
  Frames, page_used, page_limit, page_of, for_pages, pages_from, allocate_page, allocate_pages,
}
use mad_os.Frames.Range.{Marks, max_pages, allocate_pages-Marks}
use mad_os.Frames.Cursor.{ranges-IsLow}

for_pages-IsBytes :
    (left i : ℕ) (s : Frames) → IsBytes s.mem → IsBytes (for_pages allocate_page left i s).mem
unfolding for_pages
for_pages-IsBytes zero i s h = h
for_pages-IsBytes (suc left) i s h = for_pages-IsBytes left _ _ (allocate_page-IsBytes s _ h)

module _ (s : Frames) (addr n : ℕ) (fits : page_of addr + n ≤ max_pages) (sound : Sound s) where
  abbrev after : Frames
  after = allocate_pages s addr n

  abbrev marks : Marks true (page_of addr) (page_of addr + n) s after
  marks = allocate_pages-Marks s addr n fits

  -- What was in use stays in use.
  still_used : (j : ℕ) → page_used s j ≡ true → page_used after j ≡ true
  still_used j used = marks.bits j ∙ ground (arith, used)

  pub allocated-free :
      (j : ℕ)
      → (j < page_of addr) ⊎ (page_of addr + n ≤ j)
      → page_used s j ≡ false
      → page_used after j ≡ false
  allocated-free j out free = marks.bits j ∙ ground (arith, out, free)

  pub allocated-Sound : Sound after
  unfolding allocate_pages pages_from
  allocated-Sound = record {
    bytes = for_pages-IsBytes (u64 (page_of addr + n) - page_of addr) (page_of addr) s sound.bytes;
    low = (ranges-IsLow s addr n sound.low).0;
    small = ground (arith, marks.same_bitmap, sound.small);
    bitmap_used = λ x lo up.
        still_used (x / 4096)
          (sound.bitmap_used x (rw marks.same_bitmap at lo) (rw marks.same_bitmap at up));
  }

  -- Pages that hold no byte of the bitmap keep their entries.
  same_entries :
      (p i : ℕ) → Apart s.page_bitmap p → i < 512 → entry_at after.mem p i ≡ entry_at s.mem p i
  same_entries p i apart hi =
      entry_at_cong after.mem s.mem p i hi (λ x e. marks.frame x (apart x e))

  module _ (own : ℕ → ℕ) (tree : Tree own s) where
    pub allocated-Tree : Tree own after
    allocated-Tree = record {
      table_used = λ p pos. still_used p (tree.table_used p pos);
      table_apart = λ p pos. rw marks.same_bitmap (tree.table_apart p pos);
      child = λ p i pos inner hi there.
          let same = same_entries p i (tree.table_apart p pos) hi in
          rw same (tree.child p i pos inner hi (rw same at there));
    }

    pub allocated-translate :
        (root w : ℕ) → own root ≡ 1 → translate after.mem root w ≡ translate s.mem root w
    allocated-translate root w is_root =
        translate-Grows own s tree after.mem
          (λ p i pos hi.
            inl (follow_cong after.mem s.mem p i (same_entries p i (tree.table_apart p pos) hi)))
          root w is_root

  pub allocated-limit : page_limit after ≡ page_limit s
  allocated-limit = ap (λ b. u64 (b.size * 8)) marks.same_bitmap
