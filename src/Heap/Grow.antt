-- ===== src/Heap/Grow.antt =====
-- `kmalloc` where no block fits: it takes a page and calls itself.
use mad_os.Heap.Defs.{
  Heap, header, ahead, mem, round_up, rounds, find, ran_out, split, expand, merge_block, kmalloc,
}
use mad_os.Heap.Chain.{Cell, fits, Unfit, find-ran_out}
use mad_os.Heap.Parts.{IsChain, need_of, need_of_bounds, round_up_pos}
use mad_os.Heap.Allocate.{counted_rounds, kmalloc-first, split_pointer}
use mathlib.Core.List.{append_assoc}
use mad_os.Frames.{Frames}
use mad_os.Base.{
  ℕ, suc, ◌+◌, ◌-◌, ◌^◌, ◌≤◌, ◌<◌, ◌≡◌, ap, ◌∙◌, true, false, ◌==◌, List, [], ◌∷◌, ◌++◌, All,
  length, length-append, arith,
}
use mad_os.Base.Run.{done}
use mad_os.Heap.Expand.{HasPage, expand-IsChain, expanded_end, page_cell, unmerged}

Unfit-mono : (n k : ℕ) (x : Cell) → n ≤ k → Unfit n x → Unfit k x
unfolding fits
Unfit-mono n k x le h = ground arith

All-Unfit-mono : (n k : ℕ) (xs : List Cell) → n ≤ k → All (Unfit n) xs → All (Unfit k) xs
All-Unfit-mono n k [] le h = tt
All-Unfit-mono n k (x ∷ xs) le h = (Unfit-mono n k x le h.0, All-Unfit-mono n k xs le h.1)

Unfit-used : (n : ℕ) (x : Cell) → x.free ≡ false → Unfit n x
unfolding fits
Unfit-used n x h = rw h

pub fits_page : (n b : ℕ) → n ≤ 4096 + header → fits n (page_cell b) ≡ true
unfolding fits
fits_page n b h = ground arith

All-concat :
    (n : ℕ) (front : List Cell) (x : Cell)
    → All (Unfit n) front
    → Unfit n x
    → All (Unfit n) (front ++ x ∷ [])
All-concat n [] x p q = (q, tt)
All-concat n (y ∷ front) x p q = (p.0, All-concat n front x p.1 q)

-- Where the search runs out, `kmalloc` takes a page and calls itself with the enlarged size.
pub kmalloc-again :
    (fuel size : ℕ) (h : Heap) (b : ℕ)
    → (round_up size == 0) ≡ false
    → find (rounds h.block_count) (mem h) (need_of size) h.heap_start ≡ ran_out b
    → kmalloc (suc fuel) size h
      ≡ kmalloc fuel (need_of size) (merge_block (expand h b) (expand h b).heap_end)
unfolding kmalloc
kmalloc-again fuel size h b some_bytes none = rw (some_bytes, none)

-- If no block of the chain fits a request, the last block is in use, and the page frame allocator
-- has a page whose header is apart from the others', then `kmalloc` returns at the second call: the
-- pointer is 24 headers behind the start of that page. The request may come to 4120 units after it
-- has been enlarged twice.
pub kmalloc-grows :
    (fuel size : ℕ) (h : Heap) (front : List Cell) (x : Cell) (f : Frames) (b : ℕ)
    → 0 < size
    → need_of (need_of size) ≤ 4096 + header
    → size < 2 ^ 62
    → IsChain h (front ++ x ∷ [])
    → length front < 2 ^ 31 - 3
    → All (Unfit (need_of size)) front
    → x.free ≡ false
    → HasPage h front x f b
    → (t : Heap) × (kmalloc (suc (suc fuel)) size h ≡ done (t, ahead b header))
kmalloc-grows fuel size h front x f b some_bytes small low c short unfit used p =
    let need = need_of size in
    let bounds = need_of_bounds size some_bytes (omega arith) in
    let bounds' = need_of_bounds need (omega (arith, bounds)) (omega (arith, bounds)) in
    let n = length-append front (x ∷ []) in
    let e : rounds h.block_count ≡ length (front ++ x ∷ []) =
      rw c.counted (counted_rounds (length (front ++ x ∷ [])) c.short) in
    let none : find (rounds h.block_count) (mem h) need h.heap_start ≡ ran_out x.addr =
      rw (e, c.starts)
        (find-ran_out (length (front ++ x ∷ [])) (mem h) need 0 front x (omega (arith, n)) c.chain
          unfit (Unfit-used need x used)) in
    let grown : IsChain (expand h x.addr) ((front ++ x ∷ []) ++ page_cell b ∷ []) =
      rw (append_assoc front (x ∷ []) (page_cell b ∷ []))
        (expand-IsChain h front x f b c p short) in
    let full : All (Unfit (need_of need)) (front ++ x ∷ []) =
      All-concat (need_of need) front x
        (All-Unfit-mono need (need_of need) front (omega (arith, bounds')) unfit)
        (Unfit-used (need_of need) x used) in
    let second : kmalloc (suc fuel) need (expand h x.addr)
        ≡ done (split (expand h x.addr) b (need_of need)) =
      kmalloc-first fuel need (expand h x.addr) (front ++ x ∷ []) (page_cell b) []
        (omega (arith, bounds)) (omega (arith, bounds)) grown full
        (fits_page (need_of need) b small) in
    (
      (split (expand h x.addr) b (need_of need)).0,
      kmalloc-again (suc fuel) size h x.addr (round_up_pos size some_bytes (omega arith)) none
          ∙ ap (λ (e : ℕ). kmalloc (suc fuel) need (merge_block (expand h x.addr) e))
              (expanded_end h f x b p.got)
          ∙ ap (λ (g : Heap). kmalloc (suc fuel) need g) (unmerged h front x f b c p used)
          ∙ second
          ∙ ap (λ (r : ℕ). done ((split (expand h x.addr) b (need_of need)).0, r))
              (split_pointer (expand h x.addr) b (need_of need)),
    )
