-- ===== src/Heap/Allocate.antt =====
-- `kmalloc` takes the first block that fits, and leaves the other blocks and their contents alone.
use mad_os.Heap.Defs.{
  Heap, header, ahead, mem, block_at, round_up, rounds, find, selected, split, kmalloc,
}
use mad_os.Heap.Blocks.{Outside}
use mad_os.Heap.Split.{split_frame}
use mad_os.Heap.Chain.{Cell, head_addr, Linked, fits, Unfit, find-selected}
use mad_os.Base.{
  ℕ, suc, ◌+◌, ◌-◌, ◌*◌, ◌^◌, ◌≤◌, ◌<◌, ◌≡◌, refl, ◌∙◌, true, false, ◌==◌, List, [], ◌∷◌, ◌++◌, All,
  length, length-append, arith,
}
use mad_os.Base.Run.{done}
use mad_os.Heap.Parts.{
  IsChain, IsHeap, Linked-parts, Spread-parts, need_of, need_of_bounds, rest, round_up_pos, taken,
}

pub split_starts : (h : Heap) (b need : ℕ) → (split h b need).0.heap_start ≡ h.heap_start
unfolding split
split_starts h b need = refl

pub split_counted :
    (h : Heap) (b need : ℕ)
    → h.block_count < 2 ^ 31
    → (split h b need).0.block_count ≡ h.block_count + 1
unfolding split
split_counted h b need short = omega arith

pub split_pointer : (h : Heap) (b need : ℕ) → (split h b need).1 ≡ ahead b header
unfolding split
split_pointer h b need = refl

pub head_parts :
    (front : List Cell) (x : Cell) (need : ℕ)
    → head_addr (front ++ x ∷ []) ≡ head_addr (front ++ taken x need ∷ rest x need ∷ [])
head_parts [] x need = refl
head_parts (y ∷ front) x need = refl

kmalloc-split :
    (fuel size : ℕ) (h : Heap) (b : ℕ)
    → (round_up size == 0) ≡ false
    → find (rounds h.block_count) (mem h) (need_of size) h.heap_start ≡ selected b
    → kmalloc (suc fuel) size h ≡ done (split h b (need_of size))
unfolding kmalloc
kmalloc-split fuel size h b some_bytes found = rw (some_bytes, found)

pub counted_rounds : (n : ℕ) → n < 2 ^ 31 - 1 → rounds n ≡ n
unfolding rounds
counted_rounds n h = ground arith

pub kmalloc-first :
    (fuel size : ℕ) (h : Heap) (front : List Cell) (x : Cell) (behind : List Cell)
    → 0 < size
    → size < 2 ^ 63
    → IsChain h (front ++ x ∷ behind)
    → All (Unfit (need_of size)) front
    → fits (need_of size) x ≡ true
    → kmalloc (suc fuel) size h ≡ done (split h x.addr (need_of size))
kmalloc-first fuel size h front x behind some_bytes small c unfit good =
    let n = length (front ++ x ∷ behind) in
    let e : rounds h.block_count ≡ n = rw c.counted (counted_rounds n c.short) in
    kmalloc-split fuel size h x.addr (round_up_pos size some_bytes small) (
      rw (e, c.starts)
        (find-selected n (mem h) (need_of size) 0 front x behind
          (omega (arith, length-append front (x ∷ behind))) c.chain unfit good))

-- What a successful request comes to: the pointer, the room behind it, and what stays.
pub record Allocates (size : ℕ) (front : List Cell) (x : Cell) (h t : Heap) (ptr : ℕ) : Type 0 where
  pub pointer : ptr ≡ ahead x.addr header
  pub room : ptr + 24 * size ≤ ahead x.addr (need_of size)
  pub chain : Linked (mem t) 0 (front ++ taken x (need_of size) ∷ rest x (need_of size) ∷ [])
  pub keeps :
      (a : ℕ) → Outside x.addr a → Outside (ahead x.addr (need_of size)) a → mem t a ≡ mem h a
  pub starts : t.heap_start ≡ h.heap_start
  pub counted : t.block_count ≡ h.block_count + 1

-- If a heap's first block that is free and has the units for the request has more units than
-- those, and the header of its rest has no next block yet, then `kmalloc` returns, at its first
-- call, the address 24 headers behind that block; 24 bytes for each byte of the request lie behind
-- that address in the block; nothing but the headers of the block and of its rest is written; the
-- chain then consists of the blocks in front, the block, now in use and cut to the request, and
-- its free rest; and one more block is counted.
pub kmalloc-first_fit :
    (fuel size : ℕ) (h : Heap) (front : List Cell) (x : Cell) (behind : List Cell)
    → 0 < size
    → size < 2 ^ 63
    → IsHeap h (front ++ x ∷ behind)
    → All (Unfit (need_of size)) front
    → fits (need_of size) x ≡ true
    → need_of size < x.size
    → (block_at (mem h) (ahead x.addr (need_of size))).next ≡ 0
    → (t : Heap) × (ptr : ℕ) × (kmalloc (suc fuel) size h ≡ done (t, ptr))
      × Allocates size front x h t ptr
kmalloc-first_fit fuel size h front x behind some_bytes small heap unfit good cut clean =
    let need = need_of size in
    let bounds = need_of_bounds size some_bytes small in
    let units : 0 < need = omega (arith, bounds) in
    (
      (split h x.addr need).0,
      (split h x.addr need).1,
      kmalloc-first fuel size h front x behind some_bytes small heap.chained unfit good,
      record {
        pointer = split_pointer h x.addr need;
        room = omega (arith, bounds, split_pointer h x.addr need);
        chain = Linked-parts x need units cut h 0 front behind heap.chained.chain heap.spread clean;
        keeps = split_frame h x.addr need;
        starts = split_starts h x.addr need;
        counted =
            split_counted h x.addr need (omega (arith, heap.chained.counted, heap.chained.short));
      },
    )

-- A request that the last block of the heap meets leaves a heap: the blocks in front, the block cut
-- to the request and in use, and its free rest.
pub kmalloc-IsHeap :
    (fuel size : ℕ) (h : Heap) (front : List Cell) (x : Cell)
    → 0 < size
    → size < 2 ^ 63
    → IsHeap h (front ++ x ∷ [])
    → All (Unfit (need_of size)) front
    → fits (need_of size) x ≡ true
    → need_of size < x.size
    → (block_at (mem h) (ahead x.addr (need_of size))).next ≡ 0
    → length front < 2 ^ 31 - 3
    → (t : Heap) × (ptr : ℕ) × (kmalloc (suc fuel) size h ≡ done (t, ptr))
      × IsHeap t (front ++ taken x (need_of size) ∷ rest x (need_of size) ∷ [])
kmalloc-IsHeap fuel size h front x some_bytes small heap unfit good cut clean short =
    let need = need_of size in
    let (t, ptr, e, a) =
      kmalloc-first_fit fuel size h front x [] some_bytes small heap unfit good cut clean in
    let units : 0 < need = omega (arith, need_of_bounds size some_bytes small) in
    let n = length-append front (x ∷ []) in
    let n' = length-append front (taken x need ∷ rest x need ∷ []) in
    (
      t,
      ptr,
      e,
      record {
        chained = record {
          starts = a.starts ∙ heap.chained.starts ∙ head_parts front x need;
          counted = omega (arith, a.counted, heap.chained.counted, n, n');
          short = omega (arith, n');
          chain = a.chain;
        };
        spread = Spread-parts x need units cut front heap.spread;
      },
    )
