-- ===== src/Heap/Expand.antt =====
-- `InitializeHeap` and `Expand`: a page becomes the last block of the chain.
use mad_os.Heap.Defs.{
  Heap, HeapBlock, header, mem, block_at, set_next, new_block, initialize_heap, expand, merge_block,
}
use mad_os.Heap.Blocks.{
  Apart, set_next-Apart, set_next-block_at, new_block-Apart, new_block-block_at,
}
use mad_os.Heap.Chain.{Cell, head_addr, linked, Linked}
use mad_os.Heap.Parts.{IsChain, IsHeap, Linked-mid}
use mad_os.Heap.Free.{merge_next-none, merge_prev-none}
use mad_os.Frames.{Frames, request_page}
use mad_os.Memory.{Memory}
use mad_os.Base.{
  ℕ, ◌+◌, ◌-◌, ◌%◌, ◌^◌, ◌<◌, ◌≡◌, inl, inr, refl, ap, ◌∙◌, true, false, List, [], ◌∷◌, ◌++◌, All,
  length, length-append, arith,
}

-- The block that a page becomes. Its size counts bytes of the page and of one header, but `kmalloc`
-- takes it for units of 24 bytes.
abbrev pub page_cell : ℕ → Cell
page_cell b = record { addr = b; size = 4096 + header; free = true }

-- If the page frame allocator has a page, `InitializeHeap` makes a heap of one free block of it.
pub initialize_heap-IsHeap :
    (s f : Frames) (b : ℕ)
    → request_page s ≡ (f, b)
    → 0 < b
    → b < 2 ^ 63
    → IsHeap (initialize_heap s) (page_cell b ∷ [])
unfolding initialize_heap
initialize_heap-IsHeap s f b got nonnull low =
    let block = new_block-block_at f.mem b 0 (omega arith) in
    rw got (record {
      chained = record {
        starts = refl;
        counted = refl;
        short = omega arith;
        chain = (nonnull, block, tt);
      };
      spread = (omega arith, omega arith, omega arith, tt, tt);
    })

module _ (h : Heap) (f : Frames) (x : Cell) (b : ℕ) (got : request_page h.frames ≡ (f, b)) where
  -- The memory behind `Expand`.
  expanded : mem (expand h x.addr) ≡ set_next (new_block f.mem b x.addr) x.addr b
  unfolding expand
  expanded = rw got

  pub expanded_end : (expand h x.addr).heap_end ≡ b
  unfolding expand
  expanded_end = rw got

  module _ (apart : Apart x.addr b) (same : block_at f.mem x.addr ≡ block_at (mem h) x.addr) where
    turned : Apart b x.addr
    turned = elim apart [ inl p ↦ inr p | inr p ↦ inl p ]

    pub expand-new :
        x.addr < 2 ^ 64
        → block_at (mem (expand h x.addr)) b
          ≡ record { size = 4096 + header; free = true; prev = x.addr; next = 0 }
    expand-new low = rw expanded (
        set_next-Apart (new_block f.mem b x.addr) x.addr b apart b
        ∙ new_block-block_at f.mem b x.addr low)

    pub expand-last :
        b < 2 ^ 64
        → block_at (mem (expand h x.addr)) x.addr ≡ record (block_at (mem h) x.addr) { next = b }
    expand-last low =
        let e : b % 2 ^ 64 ≡ b = omega arith in
        rw expanded (
          set_next-block_at (new_block f.mem b x.addr) x.addr b
          ∙ rw (new_block-Apart f.mem b x.addr x.addr turned, same, e))

  expand-Apart :
      (c : ℕ)
      → Apart x.addr c
      → Apart b c
      → block_at f.mem c ≡ block_at (mem h) c
      → block_at (mem (expand h x.addr)) c ≡ block_at (mem h) c
  expand-Apart c here there same = rw expanded (
      set_next-Apart (new_block f.mem b x.addr) x.addr c here b
      ∙ new_block-Apart f.mem b c x.addr there
      ∙ same)

-- A chain with one block more behind its last.
Linked-longer :
    (m k : Memory) (prev : ℕ) (front : List Cell) (x y : Cell)
    → Linked m prev (front ++ x ∷ [])
    → All (λ c. block_at k c.addr ≡ block_at m c.addr) front
    → block_at k x.addr ≡ record (block_at m x.addr) { next = y.addr }
    → 0 < y.addr
    → block_at k y.addr ≡ linked x.addr y 0
    → Linked k prev (front ++ x ∷ y ∷ [])
Linked-longer m k prev [] x y l same last nonnull new =
    (l.0, last ∙ ap (λ (r : HeapBlock). record r { next = y.addr }) l.1, (nonnull, new, tt))
Linked-longer m k prev (c ∷ []) x y l same last nonnull new =
    (l.0, same.0 ∙ l.1, Linked-longer m k c.addr [] x y l.2 same.1 last nonnull new)
Linked-longer m k prev (c ∷ d ∷ front) x y l same last nonnull new =
    (l.0, same.0 ∙ l.1, Linked-longer m k c.addr (d ∷ front) x y l.2 same.1 last nonnull new)

-- The page frame allocator has the page `b`, whose header lies apart from those of the blocks, and
-- handing it out leaves these as they are.
pub record HasPage (h : Heap) (front : List Cell) (x : Cell) (f : Frames) (b : ℕ) : Type 0 where
  pub got : request_page h.frames ≡ (f, b)
  pub nonnull : 0 < b
  pub low : b < 2 ^ 63
  pub last_low : x.addr < 2 ^ 63
  pub last_apart : Apart x.addr b
  pub last_same : block_at f.mem x.addr ≡ block_at (mem h) x.addr
  pub apart : All (λ c. Apart x.addr c.addr × Apart b c.addr) front
  pub same : All (λ c. block_at f.mem c.addr ≡ block_at (mem h) c.addr) front

module _ (h : Heap) (front : List Cell) (x : Cell) (f : Frames) (b : ℕ) where
  module _ (c : IsChain h (front ++ x ∷ [])) (p : HasPage h front x f b) where
    expand_kept :
        (ys : List Cell)
        → All (λ y. Apart x.addr y.addr × Apart b y.addr) ys
        → All (λ y. block_at f.mem y.addr ≡ block_at (mem h) y.addr) ys
        → All (λ y. block_at (mem (expand h x.addr)) y.addr ≡ block_at (mem h) y.addr) ys
    expand_kept [] a s = tt
    expand_kept (y ∷ ys) a s =
        (expand-Apart h f x b p.got y.addr a.0.0 a.0.1 s.0, expand_kept ys a.1 s.1)

    pub expand_starts : (expand h x.addr).heap_start ≡ h.heap_start
    unfolding expand
    expand_starts = refl

    pub expand_counted : h.block_count < 2 ^ 31 → (expand h x.addr).block_count ≡ h.block_count + 1
    unfolding expand
    expand_counted short = omega arith

    head_longer :
        (ys : List Cell) → head_addr (ys ++ x ∷ []) ≡ head_addr (ys ++ x ∷ page_cell b ∷ [])
    head_longer [] = refl
    head_longer (y ∷ ys) = refl

    -- `Expand` puts the page at the end of the chain.
    pub expand-IsChain :
        length front < 2 ^ 31 - 3 → IsChain (expand h x.addr) (front ++ x ∷ page_cell b ∷ [])
    expand-IsChain short =
        let n = length-append front (x ∷ []) in
        let n' = length-append front (x ∷ page_cell b ∷ []) in
        record {
          starts = expand_starts ∙ c.starts ∙ head_longer front;
          counted =
              omega (arith, c.counted, n, n', expand_counted (omega (arith, c.counted, c.short)));
          short = omega (arith, n');
          chain =
              Linked-longer (mem h) (mem (expand h x.addr)) 0 front x (page_cell b) c.chain
                (expand_kept front p.apart p.same)
                (expand-last h f x b p.got p.last_apart p.last_same (omega (arith, p.low)))
                p.nonnull
                (expand-new h f x b p.got p.last_apart p.last_same (omega (arith, p.last_low)));
        }

    -- The new block stays as it is where the block in front of it is in use.
    pub unmerged : x.free ≡ false → merge_block (expand h x.addr) b ≡ expand h x.addr
    unfolding merge_block
    unmerged used =
        let new = expand-new h f x b p.got p.last_apart p.last_same (omega (arith, p.last_low)) in
        let last = expand-last h f x b p.got p.last_apart p.last_same (omega (arith, p.low)) in
        let free : (block_at (mem (expand h x.addr)) x.addr).free ≡ false =
          ap (λ (r : HeapBlock). r.free) last
          ∙ (Linked-mid (mem h) 0 front x [] c.chain).2
          ∙ used in
        rw (merge_next-none (expand h x.addr) b (linked x.addr (page_cell b) 0) new refl)
          (merge_prev-none (expand h x.addr) b (linked x.addr (page_cell b) 0) new (inr free))
