-- ===== src/Heap/RoundTrip.antt =====
-- `kfree` undoes `kmalloc`.
use mad_os.Heap.Defs.{Heap, HeapBlock, header, ahead, mem, block_at, split, kmalloc, kfree}
use mad_os.Heap.Blocks.{Apart, set_free-Apart, set_free-block_at}
use mad_os.Heap.Split.{split-Apart, split-taken, split-rest}
use mad_os.Heap.Chain.{Cell, linked, Linked, Linked-frame, fits, Unfit, Clear}
use mad_os.Heap.Parts.{
  IsHeap, Spread, need_of, need_of_bounds, taken, rest, Apart-parts, Clear-mid, Spread-mid,
  Linked-mid, Linked-parts, Spread-parts,
}
use mad_os.Heap.Allocate.{kmalloc-first, split_pointer, split_counted, split_starts}
use mad_os.Heap.Free.{
  joined, joined-block_at, joined-Apart, joined_starts, joined_counted, marked, kfree-joined,
}
use mad_os.Memory.{Memory}
use mad_os.Base.{
  ℕ, suc, ◌+◌, ◌-◌, ◌^◌, ◌<◌, ◌≡◌, ◌⊎◌, inl, inr, refl, sym, ap, ◌∙◌, Bool, true, false, not, List,
  [], ◌∷◌, ◌++◌, All, length-append, arith,
}
use mad_os.Base.Run.{done}

-- The last of the blocks is in use, if there is one.
abbrev pub ends_used : List Cell → Bool
ends_used [] = true
ends_used (y ∷ []) = not y.free
ends_used (y ∷ z ∷ ys) = ends_used (z ∷ ys)

-- The block in front of `x` is none, or lies apart from it and is in use.
abbrev Skips : Memory → ℕ → ℕ → Type 0
Skips m b p = (p ≡ 0) ⊎ (Apart b p × ((block_at m p).free ≡ false))

Apart-Clear : (y x : Cell) → 0 < y.size → 0 < x.size → Clear y x → Apart x.addr y.addr
Apart-Clear y x hy hx (inl p) = inr (omega arith)
Apart-Clear y x hy hx (inr p) = inl (omega arith)

-- Behind a chain whose last block is in use.
prev-Skips_behind :
    (m : Memory) (prev : ℕ) (y : Cell) (front : List Cell) (x : Cell) (behind : List Cell)
    → Linked m prev (y ∷ front ++ x ∷ behind)
    → Spread (y ∷ front ++ x ∷ behind)
    → ends_used (y ∷ front) ≡ true
    → Skips m x.addr (block_at m x.addr).prev
prev-Skips_behind m prev y [] x behind l s used =
    let free : (block_at m y.addr).free ≡ false =
      ap (λ (r : HeapBlock). r.free) l.1 ∙ ground arith in
    rw l.2.1 (inr (Apart-Clear y x s.0 s.4.0 s.3.0, free))
prev-Skips_behind m prev y (z ∷ front) x behind l s used =
    prev-Skips_behind m y.addr z front x behind l.2 s.4 used

prev-Skips :
    (m : Memory) (front : List Cell) (x : Cell) (behind : List Cell)
    → Linked m 0 (front ++ x ∷ behind)
    → Spread (front ++ x ∷ behind)
    → ends_used front ≡ true
    → Skips m x.addr (block_at m x.addr).prev
prev-Skips m [] x behind l s used = inl (ap (λ (r : HeapBlock). r.prev) l.1)
prev-Skips m (y ∷ front) x behind l s used = prev-Skips_behind m 0 y front x behind l s used

All-concat :
    (P : Cell → Type 0) (front : List Cell) (x : Cell) → All P front → P x → All P (front ++ x ∷ [])
All-concat P [] x p q = (q, tt)
All-concat P (y ∷ front) x p q = (p.0, All-concat P front x p.1 q)

Linked-last :
    (m : Memory) (prev : ℕ) (front : List Cell) (x : Cell)
    → Linked m prev (front ++ x ∷ [])
    → block_at m x.addr ≡ linked (block_at m x.addr).prev x 0
Linked-last m prev [] x l =
    l.1 ∙ ap (λ (p : ℕ). linked p x 0) (sym (ap (λ (r : HeapBlock). r.prev) l.1))
Linked-last m prev (y ∷ front) x l = Linked-last m y.addr front x l.2

module _ (h : Heap) (front : List Cell) (x : Cell) (heap : IsHeap h (front ++ x ∷ [])) where
  module _ (need : ℕ) (units : 0 < need) (cut : need < x.size) where
    -- What the cut and the freeing leave of a block in front.
    kept :
        (next : ℕ) (ys : List Cell)
        → Spread (ys ++ x ∷ [])
        → All
            (λ y.
              block_at
                (mem (joined (marked (split h x.addr need).0 x.addr) x.addr x.size next))
                y.addr
              ≡ block_at (mem h) y.addr)
            ys
    kept next [] s = tt
    kept next (y ∷ ys) s =
        let t = (split h x.addr need).0 in
        let apart = Apart-parts x need units cut y s.0 (Clear-mid y ys x [] s.3) in
        (
          joined-Apart (marked t x.addr) x.addr x.size next y.addr apart.0
              ∙ set_free-Apart (mem t) x.addr y.addr apart.0 true
              ∙ split-Apart h x.addr need y.addr apart.0 apart.1,
          kept next ys s.4,
        )

    module _ (clean : (block_at (mem h) (ahead x.addr need)).next ≡ 0)
        (used : ends_used front ≡ true) (good : x.free ≡ true) where
      abbrev back : Heap
      back = joined (marked (split h x.addr need).0 x.addr) x.addr x.size 0

      -- The freed block takes its rest in again.
      kfree-back : kfree (split h x.addr need).0 (ahead x.addr header) ≡ back
      kfree-back =
          let t = (split h x.addr need).0 in
          let p = (block_at (mem h) x.addr).prev in
          let last = Linked-last (mem h) 0 front x heap.chained.chain in
          let bounds = Spread-mid front x [] heap.spread in
          let sized : (block_at (mem h) x.addr).size ≡ x.size =
            ap (λ (r : HeapBlock). r.size) last in
          let c : need < (block_at (mem h) x.addr).size = omega arith in
          let here : block_at (mem t) x.addr
              ≡ record { size = need; free = false; prev = p; next = ahead x.addr need } =
            split-taken h x.addr need units c (omega arith) (omega arith) in
          let there : block_at (mem t) (ahead x.addr need)
              ≡ record { size = x.size - need; free = true; prev = x.addr; next = 0 } =
            rw (sized, clean) at (split-rest h x.addr need units c (omega arith) (omega arith)) in
          let chain =
            Linked-parts x need units cut h 0 front [] heap.chained.chain heap.spread clean in
          let skips : Skips (mem t) x.addr p = rw here at (
            prev-Skips (mem t) front (taken x need) (rest x need ∷ []) chain
              (Spread-parts x need units cut front heap.spread) used) in
          let total : need + (x.size - need) ≡ x.size = omega arith in
          rw total at (
            kfree-joined t x.addr
              (record { size = need; free = false; prev = p; next = ahead x.addr need })
              (record { size = x.size - need; free = true; prev = x.addr; next = 0 })
              (Linked-mid (mem h) 0 front x [] heap.chained.chain).0 here there (omega arith) refl
              (inl (omega arith)) skips (omega arith) (omega arith))

      -- The block is what it was.
      restored : block_at (mem back) x.addr ≡ block_at (mem h) x.addr
      restored =
          let t = (split h x.addr need).0 in
          let last = Linked-last (mem h) 0 front x heap.chained.chain in
          let bounds = Spread-mid front x [] heap.spread in
          let sized : (block_at (mem h) x.addr).size ≡ x.size =
            ap (λ (r : HeapBlock). r.size) last in
          let c : need < (block_at (mem h) x.addr).size = omega arith in
          let here = split-taken h x.addr need units c (omega arith) (omega arith) in
          let step : block_at (mem (marked t x.addr)) x.addr
              ≡ record (block_at (mem t) x.addr) { free = true } =
            set_free-block_at (mem t) x.addr true in
          joined-block_at (marked t x.addr) x.addr x.size 0 (omega arith) (omega arith)
          ∙ ap (λ (r : HeapBlock). record r { size = x.size; next = 0 }) step
          ∙ ap (λ (r : HeapBlock). record r { size = x.size; free = true; next = 0 }) here
          ∙ ap
              (λ (f : Bool). record (block_at (mem h) x.addr) { size = x.size; free = f; next = 0 })
              (sym good)
          ∙ sym (whole_of last)
        where
          whole_of :
              block_at (mem h) x.addr ≡ linked (block_at (mem h) x.addr).prev x 0
              → block_at (mem h) x.addr
                ≡ record (block_at (mem h) x.addr) { size = x.size; free = x.free; next = 0 }
          whole_of e = e

      back-IsHeap : IsHeap back (front ++ x ∷ [])
      back-IsHeap =
          let t = (split h x.addr need).0 in
          let n = length-append front (x ∷ []) in
          let more =
            split_counted h x.addr need (omega (arith, heap.chained.counted, heap.chained.short)) in
          record {
            chained = record {
              starts =
                  joined_starts t x.addr x.size 0
                  ∙ split_starts h x.addr need
                  ∙ heap.chained.starts;
              counted = omega (
                arith,
                heap.chained.counted,
                heap.chained.short,
                more,
                joined_counted t x.addr x.size 0 (omega arith)
                    (omega (arith, heap.chained.counted, heap.chained.short)),
              );
              short = heap.chained.short;
              chain =
                  Linked-frame (mem h) (mem back) 0 (front ++ x ∷ [])
                    (All-concat (λ y. block_at (mem back) y.addr ≡ block_at (mem h) y.addr) front x
                      (kept 0 front heap.spread) restored)
                    heap.chained.chain;
            };
            spread = heap.spread;
          }

fits_free : (size : ℕ) (x : Cell) → fits size x ≡ true → x.free ≡ true
unfolding fits
fits_free size x h = ground arith

-- If the last block of a heap is the first that fits a request, has more units than the request
-- comes to, follows no free block, and the header of its rest has no next block yet, then `kmalloc`
-- returns a pointer at its first call, and `kfree` of that pointer leaves the heap of the same
-- blocks in the same order, in the chain and in the count, as if nothing had been requested.
pub kfree-kmalloc :
    (fuel size : ℕ) (h : Heap) (front : List Cell) (x : Cell)
    → 0 < size
    → size < 2 ^ 63
    → IsHeap h (front ++ x ∷ [])
    → All (Unfit (need_of size)) front
    → ends_used front ≡ true
    → fits (need_of size) x ≡ true
    → need_of size < x.size
    → (block_at (mem h) (ahead x.addr (need_of size))).next ≡ 0
    → (t : Heap) × (ptr : ℕ) × (kmalloc (suc fuel) size h ≡ done (t, ptr))
      × IsHeap (kfree t ptr) (front ++ x ∷ [])
kfree-kmalloc fuel size h front x some_bytes small heap unfit used good cut clean =
    let need = need_of size in
    let units : 0 < need = omega (arith, need_of_bounds size some_bytes small) in
    let free = fits_free need x good in
    (
      (split h x.addr need).0,
      (split h x.addr need).1,
      kmalloc-first fuel size h front x [] some_bytes small heap.chained unfit good,
      rw (split_pointer h x.addr need, kfree-back h front x heap need units cut clean used free)
          (back-IsHeap h front x heap need units cut clean used free),
    )
