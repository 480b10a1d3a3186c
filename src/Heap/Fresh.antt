-- ===== src/Heap/Fresh.antt =====
-- The first requests after `InitializeHeap`, and the requests that `kmalloc` turns down.
use mad_os.Heap.Defs.{
  split, Heap, header, ahead, mem, block_at, initialize_heap, round_up, kmalloc, kfree,
}
use mad_os.Heap.Chain.{Cell, fits, Unfit}
use mad_os.Heap.Parts.{need_of, need_of_bounds, taken, rest}
use mad_os.Heap.Allocate.{kmalloc-first, kmalloc-IsHeap, split_pointer}
use mad_os.Heap.Expand.{page_cell, initialize_heap-IsHeap}
use mad_os.Heap.Grow.{fits_page}
use mad_os.Frames.{Frames, request_page}
use mad_os.Base.{
  ℕ, suc, ◌+◌, ◌-◌, ◌^◌, ◌≤◌, ◌<◌, ◌≡◌, ◌⊎◌, inl, inr, refl, true, ◌==◌, [], ◌∷◌, arith,
}
use mad_os.Base.Run.{done}

round_up_null :
    (size : ℕ) → (size ≡ 0) ⊎ ((2 ^ 64 - 16 < size) × (size < 2 ^ 64)) → (round_up size == 0) ≡ true
unfolding round_up
round_up_null size (inl e) = rw e refl
round_up_null size (inr h) = ground arith

-- `kmalloc` of no bytes, or of so many that rounding them up to 16 wraps to zero, returns `NULL` and
-- changes nothing; nor does `kfree` of that pointer.
pub kmalloc-null :
    (fuel size : ℕ) (h : Heap)
    → (size ≡ 0) ⊎ ((2 ^ 64 - 16 < size) × (size < 2 ^ 64))
    → (kmalloc (suc fuel) size h ≡ done (h, 0)) × (kfree h 0 ≡ h)
unfolding kmalloc kfree
kmalloc-null fuel size h none = (rw (round_up_null size none), refl)

fits_rest : (n k : ℕ) (x : Cell) → n + k ≤ x.size → fits k (rest x n) ≡ true
unfolding fits
fits_rest n k x h = ground arith

Unfit-taken : (n k : ℕ) (x : Cell) → Unfit k (taken x n)
unfolding fits
Unfit-taken n k x = refl

-- After `InitializeHeap`, a first request of 123 bytes or more is met from the page that the heap
-- was given, but the pointer for the second request lies behind that page, which the heap does not
-- own. Both requests return, where the units that they come to fit into the first block, and where
-- the header of the first rest has no next block yet.
pub kmalloc-outside :
    (fuel first second : ℕ) (s f : Frames) (b : ℕ)
    → request_page s ≡ (f, b)
    → 0 < b
    → b < 2 ^ 63
    → 123 ≤ first
    → first < 2 ^ 63
    → 0 < second
    → second < 2 ^ 63
    → need_of first + need_of second ≤ 4096 + header
    → (block_at (mem (initialize_heap s)) (ahead b (need_of first))).next ≡ 0
    → (t : Heap) × (p : ℕ) × (u : Heap) × (q : ℕ) × (kmalloc (suc fuel) first (initialize_heap s)
        ≡ done (t, p))
      × (kmalloc (suc fuel) second t ≡ done (u, q))
      × (b + 4096 ≤ q)
kmalloc-outside fuel first second s f b got nonnull low some_bytes small more small' room clean =
    let heap = initialize_heap-IsHeap s f b got nonnull low in
    let one = need_of_bounds first (omega arith) small in
    let two = need_of_bounds second more small' in
    let (t, p, e, heap') =
      kmalloc-IsHeap fuel first (initialize_heap s) [] (page_cell b) (omega arith) small heap tt
        (fits_page (need_of first) b (omega arith)) (omega (arith, two)) clean (omega arith) in
    let x = rest (page_cell b) (need_of first) in
    let unfit : Unfit (need_of second) (taken (page_cell b) (need_of first)) =
      Unfit-taken (need_of first) (need_of second) (page_cell b) in
    let e' =
      kmalloc-first fuel second t (taken (page_cell b) (need_of first) ∷ []) x [] more small'
        heap'.chained (unfit, tt) (fits_rest (need_of first) (need_of second) (page_cell b) room) in
    (
      t,
      p,
      (split t x.addr (need_of second)).0,
      (split t x.addr (need_of second)).1,
      e,
      e',
      omega (arith, one, split_pointer t x.addr (need_of second)),
    )
