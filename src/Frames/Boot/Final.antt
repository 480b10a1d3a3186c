-- ===== src/Frames/Boot/Final.antt =====
-- The bitmap after `ReadEfiMemoryMap`.
use mad_os.Frames.Defs.{Frames, page_used, page_of, allocate_pages, reserve_pages}
use mad_os.Frames.Boot.{
  clear_bitmap, read_descriptors, initialize_bitmap, mark_bitmap, build_bitmap,
}
use mad_os.Frames.Boot.Zero.{clear_bitmap_bits, clear_bitmap-fill, fill_outside}
use mad_os.Frames.Boot.Entries.{offers, AgreeOutside, IsReadable, Passed, read_descriptors-Passed}
use mad_os.Frames.Range.{Marks, in_range, max_pages, reserve_pages-Marks, allocate_pages-Marks}
use mad_os.Base.{
  ℕ, ◌+◌, ◌*◌, ◌/◌, ◌^◌, ◌≤◌, ◌<◌, ◌≡◌, ◌⊎◌, inl, inr, refl, sym, ◌∙◌, Bool, true, not, ◌&&◌, ◌||◌,
  ltb, u64, arith,
}
use mad_os.Bitmap.{Bitmap}
use mathlib.Core.Path.{subst}
use mad_os.Memory.{Memory}
use mad_os.Base.Run.{done}

-- Where the bitmap of a memory of a given size lies.
abbrev pub boot_bitmap : (memory_size buffer : ℕ) → Bitmap
boot_bitmap memory_size buffer = record { size = memory_size / 4096 / 8 + 1; buffer = buffer }

-- The pages that hold the bitmap itself.
abbrev pub holds_bitmap : Bitmap → ℕ → Bool
holds_bitmap b = in_range (page_of b.buffer) (page_of b.buffer + (b.size / 4096 + 1))

-- What the kernel relies on: the map's entries and the bytes of the bitmap can be counted by an `int`,
-- so that the memory size is below 64 TiB, the bitmap does not run over the
-- end of the address space and does not overlap the map, and the map's entries lie in the address
-- space.
pub record IsBootable (m : Memory) (map entries descriptor_size memory_size buffer : ℕ)
    : Type 0 where
  pub few : entries < 2 ^ 31
  pub small : memory_size / 4096 / 8 + 1 < 2 ^ 31
  pub room : page_of buffer + ((memory_size / 4096 / 8 + 1) / 4096 + 1) ≤ max_pages
  pub readable : IsReadable m (boot_bitmap memory_size buffer) map descriptor_size 0 entries

initialized_bitmap :
    (s : Frames) (memory_size buffer : ℕ)
    → (clear_bitmap s (memory_size / 4096 / 8 + 1) buffer).page_bitmap
      ≡ boot_bitmap memory_size buffer
unfolding clear_bitmap
initialized_bitmap s memory_size buffer = refl

-- Initialising writes to the bitmap only.
initialized_frame :
    (s : Frames) (memory_size buffer : ℕ)
    → AgreeOutside
        (boot_bitmap memory_size buffer)
        (clear_bitmap s (memory_size / 4096 / 8 + 1) buffer).mem
        s.mem
initialized_frame s memory_size buffer x out =
    rw (clear_bitmap-fill s (memory_size / 4096 / 8 + 1) buffer)
      (fill_outside s.mem buffer (memory_size / 4096 / 8 + 1) 0 x (wide out))
  where
    wide :
        (x < buffer) ⊎ (buffer + (memory_size / 4096 / 8 + 1) < x)
        → (x < buffer) ⊎ (buffer + (memory_size / 4096 / 8 + 1) ≤ x)
    wide (inl p) = inl p
    wide (inr p) = inr (omega arith)

-- Reserving the first `n` pages.
reserve_low : (s : Frames) (n : ℕ) → n ≤ max_pages → Marks true 0 n s (reserve_pages s 0 n)
reserve_low s n h =
    let e : page_of 0 + n ≡ n = omega arith in rw e at (reserve_pages-Marks s 0 n (omega arith))

-- Taking the pages of the bitmap, wherever the state says that it lies.
take_own :
    (s : Frames) (b : Bitmap)
    → s.page_bitmap ≡ b
    → page_of b.buffer + (b.size / 4096 + 1) ≤ max_pages
    → Marks true
        (page_of b.buffer)
        (page_of b.buffer + (b.size / 4096 + 1))
        s
        (allocate_pages s s.page_bitmap.buffer (s.page_bitmap.size / 4096 + 1))
take_own s b e =
    subst
      (λ c.
        page_of c.buffer + (c.size / 4096 + 1) ≤ max_pages
        → Marks true (page_of c.buffer) (page_of c.buffer + (c.size / 4096 + 1)) s
            (allocate_pages s s.page_bitmap.buffer (s.page_bitmap.size / 4096 + 1)))
      e (allocate_pages-Marks s s.page_bitmap.buffer (s.page_bitmap.size / 4096 + 1))

agree_at : {b c : Bitmap} (k m : Memory) → b ≡ c → AgreeOutside b k m → AgreeOutside c k m
agree_at k m e = subst (λ b. AgreeOutside b k m) e

-- After the bitmap is set up, a page that it reaches is in use exactly if it holds the bitmap, is
-- one of the first 256, or lies in the memory that the map adds up to and is offered by no entry of
-- conventional memory. Nothing outside the bitmap has been written.
pub build_bitmap_bits :
    (s : Frames) (map entries descriptor_size memory_size buffer : ℕ)
    → IsBootable s.mem map entries descriptor_size memory_size buffer
    → let s1 = clear_bitmap s (memory_size / 4096 / 8 + 1) buffer in
      let t = mark_bitmap s1 map entries descriptor_size memory_size in
      (build_bitmap s map entries descriptor_size memory_size buffer ≡ done t)
      × ((j : ℕ)
          → j < (memory_size / 4096 / 8 + 1) * 8
          → page_used t j ≡ (
              holds_bitmap (boot_bitmap memory_size buffer) j
              || ltb j 0x100
              || (ltb j (memory_size / 4096 + 1)
                  && not (offers s.mem map descriptor_size entries 0 j))))
      × AgreeOutside (boot_bitmap memory_size buffer) t.mem s.mem
unfolding build_bitmap initialize_bitmap mark_bitmap
build_bitmap_bits s map entries descriptor_size memory_size buffer ok =
    let b = boot_bitmap memory_size buffer in
    let s1 = clear_bitmap s (memory_size / 4096 / 8 + 1) buffer in
    let at1 : s1.page_bitmap ≡ b = initialized_bitmap s memory_size buffer in
    let s2 = reserve_pages s1 0 (memory_size / 4096 + 1) in
    let all = reserve_low s1 (memory_size / 4096 + 1) (omega (arith, ok.small)) in
    let at2 : s2.page_bitmap ≡ b = all.same_bitmap ∙ at1 in
    let agree2 : AgreeOutside b s2.mem s.mem = λ x out.
      agree_at s2.mem s1.mem at1 all.frame x out ∙ initialized_frame s memory_size buffer x out in
    let s3 = read_descriptors map descriptor_size entries 0 s2 in
    let offered : Passed s.mem (offers s.mem map descriptor_size entries 0) s2 s3 =
      read_descriptors-Passed s.mem map descriptor_size entries entries 0 s2 (omega arith)
        (agree_at s2.mem s.mem (sym at2) agree2)
        (subst (λ c. IsReadable s.mem c map descriptor_size 0 entries) (sym at2) ok.readable) in
    let at3 : s3.page_bitmap ≡ b = offered.same_bitmap ∙ at2 in
    let s4 = reserve_pages s3 0 0x100 in
    let low = reserve_low s3 0x100 (omega arith) in
    let at4 : s4.page_bitmap ≡ b = low.same_bitmap ∙ at3 in
    let s5 = record s4 { reserved_memory = u64 (s4.reserved_memory + 0x100 * 0x1000) } in
    let own = take_own s5 b at4 ok.room in
    let t = allocate_pages s5 s5.page_bitmap.buffer (s5.page_bitmap.size / 4096 + 1) in
    let fits : ltb (memory_size / 4096 / 8 + 1) (2 ^ 31) ≡ true = ground (arith, ok.small) in
    let counted : ltb entries (2 ^ 31) ≡ true = ground (arith, ok.few) in
    (
      rw (fits, counted),
      λ j h. ground (
        arith,
        clear_bitmap_bits s (memory_size / 4096 / 8 + 1) buffer j h,
        all.bits j,
        offered.bits j,
        low.bits j,
        own.bits j,
        at1,
        at2,
        at3,
        at4,
        ok.small,
      ),
      λ x out.
          agree_at t.mem s5.mem at4 own.frame x out
          ∙ agree_at s4.mem s3.mem at3 low.frame x out
          ∙ agree_at s3.mem s.mem at2 offered.frame x out,
    )
