-- ===== src/Heap/Collect.antt =====
-- `kmalloc` of more than the last block has, where that block is free: every page that it takes is
-- merged into that block, until the request fits.
use mad_os.Heap.Defs.{
  Heap, HeapBlock, header, ahead, mem, with_mem, block_at, set_size, set_next, rounds, find,
  ran_out, split, expand, merge_prev, merge_block, kmalloc,
}
use mad_os.Heap.Blocks.{Apart, set_size-Apart, set_size-block_at, set_next-block_at}
use mad_os.Heap.Chain.{Cell, linked, fits, find-ran_out}
use mad_os.Heap.Parts.{IsChain, need_of, need_of_bounds, round_up_pos}
use mad_os.Heap.Allocate.{counted_rounds, kmalloc-first, split_pointer}
use mad_os.Heap.Free.{merge_next-none}
use mad_os.Heap.Expand.{
  page_cell, HasPage, expand-new, expand-last, expanded_end, expand_counted, expand_starts,
}
use mad_os.Heap.Grow.{kmalloc-again}
use mad_os.Frames.{Frames}
use mad_os.Base.{
  ℕ, zero, suc, ◌+◌, ◌-◌, ◌*◌, ◌^◌, ◌≤◌, ◌<◌, ◌≡◌, inl, inr, refl, ap, ◌∙◌, true, false, ◌==◌, [],
  ◌∷◌, u32, arith, Bool-cases,
}
use mad_os.Base.Run.{done}

-- A free block at `a`.
abbrev pub free_cell : (a size : ℕ) → Cell
free_cell a size = record { addr = a; size = size; free = true }

-- A block and the free block in front of it become one.
module _ (h : Heap) (b : ℕ) (x y : HeapBlock) where
  -- The memory behind the merge.
  merged_mem :
      block_at (mem h) b ≡ x
      → block_at (mem h) x.prev ≡ y
      → 0 < x.prev
      → y.free ≡ true
      → Apart x.prev b
      → merge_prev h b
        ≡ record (with_mem h (set_next (set_size (mem h) x.prev (y.size + x.size)) x.prev x.next)) {
          block_count = u32 (h.block_count + 2 ^ 32 - 1);
        }
  unfolding merge_prev
  merged_mem here there nonnull free apart =
      let e : (x.prev == 0) ≡ false = ground arith in
      let m = set_size (mem h) x.prev (y.size + x.size) in
      let here' : block_at m b ≡ x =
        set_size-Apart (mem h) x.prev b apart (y.size + x.size) ∙ here in
      rw (here, there, e, free, here')

module _ (h : Heap) (a size : ℕ) (f : Frames) (b : ℕ) where
  module _ (c : IsChain h (free_cell a size ∷ [])) (p : HasPage h [] (free_cell a size) f b)
      (short : size + 4096 + header < 2 ^ 32) where
    -- The page is merged into the block.
    collected :
        merge_block (expand h a) b
        ≡ record (with_mem
            (expand h a)
            (set_next (set_size (mem (expand h a)) a (size + (4096 + header))) a 0)) {
              block_count = u32 ((expand h a).block_count + 2 ^ 32 - 1);
            }
    unfolding merge_block
    collected =
        let x = free_cell a size in
        let new : block_at (mem (expand h a)) b ≡ linked a (page_cell b) 0 =
          expand-new h f x b p.got p.last_apart p.last_same (omega (arith, p.last_low)) in
        let last : block_at (mem (expand h a)) a ≡ linked 0 x b =
          expand-last h f x b p.got p.last_apart p.last_same (omega (arith, p.low))
          ∙ ap (λ (r : HeapBlock). record r { next = b }) c.chain.1 in
        rw (merge_next-none (expand h a) b (linked a (page_cell b) 0) new refl) (
          merged_mem (expand h a) b (linked a (page_cell b) 0) (linked 0 x b) new last c.chain.0
            refl p.last_apart)

    -- The chain is one block again, with the page's units more.
    pub collected-IsChain :
        IsChain (merge_block (expand h a) b) (free_cell a (size + (4096 + header)) ∷ [])
    collected-IsChain =
        let x = free_cell a size in
        let last : block_at (mem (expand h a)) a ≡ linked 0 x b =
          expand-last h f x b p.got p.last_apart p.last_same (omega (arith, p.low))
          ∙ ap (λ (r : HeapBlock). record r { next = b }) c.chain.1 in
        let m = set_size (mem (expand h a)) a (size + (4096 + header)) in
        let e : u32 (size + (4096 + header)) ≡ size + (4096 + header) = omega arith in
        let whole : block_at (set_next m a 0) a
            ≡ linked 0 (free_cell a (size + (4096 + header))) 0 =
          set_next-block_at m a 0
          ∙ ap (λ (r : HeapBlock). record r { next = 0 })
              (set_size-block_at (mem (expand h a)) a (size + (4096 + header))
                ∙ ap (λ (r : HeapBlock). record r { size = u32 (size + (4096 + header)) }) last)
          ∙ ap (λ (n : ℕ). linked 0 (free_cell a n) 0) e in
        let starts = expand_starts h [] x f b c p in
        let more = expand_counted h [] x f b c p (omega (arith, c.counted)) in
        rw collected (record {
          starts = starts ∙ c.starts;
          counted = omega (arith, c.counted, more);
          short = omega arith;
          chain = (c.chain.0, whole, tt);
        })

-- What `kmalloc` asks for at its call after `n` others.
abbrev pub need_after : ℕ → ℕ → ℕ
need_after zero size = need_of size
need_after (suc n) size = need_after n (need_of size)

-- The page frame allocator has `n` pages to come, each apart from the block at `a`.
abbrev pub Provides : ℕ → ℕ → ℕ → Heap → Type 0
Provides zero a size h = Unit {0}
Provides (suc n) a size h =
    (f : Frames) × (b : ℕ) × HasPage h [] (free_cell a size) f b
    × Provides n a (size + (4096 + header)) (merge_block (expand h a) b)

fits_free_cell : (n a size : ℕ) → n ≤ size → fits n (free_cell a size) ≡ true
unfolding fits
fits_free_cell n a size h = ground arith

-- The block of the heap serves the request if it fits.
serves :
    (fuel size : ℕ) (h : Heap) (a units : ℕ)
    → 0 < size
    → size < 2 ^ 63
    → IsChain h (free_cell a units ∷ [])
    → fits (need_of size) (free_cell a units) ≡ true
    → (t : Heap) × (kmalloc (suc fuel) size h ≡ done (t, ahead a header))
serves fuel size h a units some_bytes small c good = (
  (split h a (need_of size)).0,
  kmalloc-first fuel size h [] (free_cell a units) [] some_bytes small c tt good
      ∙ ap (λ (r : ℕ). done ((split h a (need_of size)).0, r)) (split_pointer h a (need_of size)),
)

-- A heap of one free block, to which the page frame allocator can give `n` pages, meets a request
-- that fits into the block and `n` pages, where every page counts for 4120 units and every call for
-- the enlarged request: if the block and these pages come to fewer than 2 ^ 32 units, and the request
-- and 64 bytes for each page to fewer than 2 ^ 62 bytes, `kmalloc` returns, with one call more than
-- pages at most, the pointer 24 headers behind the block's start.
pub kmalloc-collects :
    (n fuel size : ℕ) (h : Heap) (a units : ℕ)
    → n < fuel
    → 0 < size
    → size + n * 64 < 2 ^ 62
    → units + n * (4096 + header) < 2 ^ 32
    → IsChain h (free_cell a units ∷ [])
    → Provides n a units h
    → need_after n size ≤ units + n * (4096 + header)
    → (t : Heap) × (kmalloc fuel size h ≡ done (t, ahead a header))
kmalloc-collects zero zero size h a units enough some_bytes small short c pages room =
    absurd (omega arith)
kmalloc-collects zero (suc fuel) size h a units enough some_bytes small short c pages room =
    serves fuel size h a units some_bytes (omega arith) c
      (fits_free_cell (need_of size) a units (omega arith))
kmalloc-collects (suc n) zero size h a units enough some_bytes small short c pages room =
    absurd (omega arith)
kmalloc-collects (suc n) (suc fuel) size h a units enough some_bytes small short c pages room =
    elim (Bool-cases (fits (need_of size) (free_cell a units))) [
      | inl good ↦ serves fuel size h a units some_bytes (omega arith) c good
      | inr unfit ↦
          let (f, b, p, later) = pages in
          let x = free_cell a units in
          let bounds = need_of_bounds size some_bytes (omega arith) in
          let e : rounds h.block_count ≡ 1 = rw c.counted (counted_rounds 1 (omega arith)) in
          let none : find (rounds h.block_count) (mem h) (need_of size) h.heap_start ≡ ran_out a =
            rw (e, c.starts)
              (find-ran_out 1 (mem h) (need_of size) 0 [] x (omega arith) c.chain tt unfit) in
          let (t, run) =
            kmalloc-collects n fuel (need_of size) (merge_block (expand h a) b) a
              (units + (4096 + header)) (omega arith) (omega (arith, bounds))
              (omega (arith, bounds)) (omega arith)
              (collected-IsChain h a units f b c p (omega arith)) later (omega arith) in
          (
            t,
            kmalloc-again fuel size h a (round_up_pos size some_bytes (omega arith)) none
                ∙ ap (λ (k : ℕ). kmalloc fuel (need_of size) (merge_block (expand h a) k))
                    (expanded_end h f x b p.got)
                ∙ run,
          )
    ]
