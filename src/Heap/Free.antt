-- ===== src/Heap/Free.antt =====
-- `mergeBlock` and `kfree`, and that `kfree` undoes `kmalloc`.
use mad_os.Heap.Defs.{
  Heap, HeapBlock, header, ahead, mem, with_mem, block_at, set_size, set_free, set_next, merge_next,
  merge_prev, merge_block, kfree,
}
use mad_os.Heap.Blocks.{
  Apart, set_size-Apart, set_free-Apart, set_next-Apart, set_size-block_at, set_free-block_at,
  set_next-block_at,
}
use mad_os.Memory.{Memory}
use mad_os.Base.{
  ℕ, ◌+◌, ◌-◌, ◌*◌, ◌^◌, ◌<◌, ◌≡◌, ◌⊎◌, inl, inr, refl, ap, ◌∙◌, true, false, ◌==◌, u32, u64, arith,
}

-- What `mergeBlock` does to a block whose next block is free: it takes that block in.
pub joined : Heap → ℕ → ℕ → ℕ → Heap
joined h b size next = record (with_mem h (set_next (set_size (mem h) b size) b next)) {
  block_count = u32 (h.block_count + 2 ^ 32 - 1);
}

module _ (h : Heap) (b : ℕ) (x y : HeapBlock) (here : block_at (mem h) b ≡ x) where
  pub merge_next-joined :
      (there : block_at (mem h) x.next ≡ y)
      → 0 < x.next
      → y.free ≡ true
      → Apart b x.next
      → merge_next h b ≡ joined h b (x.size + y.size) y.next
  unfolding merge_next joined
  merge_next-joined there nonnull free apart =
      let e : (x.next == 0) ≡ false = ground arith in
      let m = set_size (mem h) b (x.size + y.size) in
      let here' : (block_at m b).next ≡ x.next =
        ap (λ (r : HeapBlock). r.next)
          (set_size-block_at (mem h) b (x.size + y.size)
            ∙ ap (λ (r : HeapBlock). record r { size = u32 (x.size + y.size) }) here) in
      let there' : block_at m x.next ≡ y =
        set_size-Apart (mem h) b x.next apart (x.size + y.size) ∙ there in
      rw (here, there, e, free, here', there')

-- Where the block in front is in use, or there is none, nothing happens.
pub merge_prev-none :
    (h : Heap) (b : ℕ) (x : HeapBlock)
    → block_at (mem h) b ≡ x
    → (x.prev ≡ 0) ⊎ ((block_at (mem h) x.prev).free ≡ false)
    → merge_prev h b ≡ h
unfolding merge_prev
merge_prev-none h b x here (inl e) = rw (here, e)
merge_prev-none h b x here (inr e) = rw here (ground (arith, e))

-- The joined block, and the blocks apart from it.
module _ (h : Heap) (b size next : ℕ) where
  pub joined-block_at :
      size < 2 ^ 32
      → next < 2 ^ 64
      → block_at (mem (joined h b size next)) b
        ≡ record (block_at (mem h) b) { size = size; next = next }
  unfolding joined
  joined-block_at short low =
      let e : u32 size ≡ size = omega arith in
      let e' : u64 next ≡ next = omega arith in
      rw (
        set_next-block_at (set_size (mem h) b size) b next,
        set_size-block_at (mem h) b size,
        e,
        e',
      )

  pub joined-Apart :
      (c : ℕ) → Apart b c → block_at (mem (joined h b size next)) c ≡ block_at (mem h) c
  unfolding joined
  joined-Apart c apart =
      set_next-Apart (set_size (mem h) b size) b c apart next
      ∙ set_size-Apart (mem h) b c apart size

-- The heap with the block marked free.
abbrev pub marked : Heap → ℕ → Heap
marked h b = with_mem h (set_free (mem h) b true)

-- `kfree` of a block whose next block is free, and whose previous block is not.
pub kfree-joined :
    (h : Heap) (b : ℕ) (x y : HeapBlock)
    → 0 < b
    → block_at (mem h) b ≡ x
    → block_at (mem h) x.next ≡ y
    → 0 < x.next
    → y.free ≡ true
    → Apart b x.next
    → (x.prev ≡ 0) ⊎ (Apart b x.prev × ((block_at (mem h) x.prev).free ≡ false))
    → x.size + y.size < 2 ^ 32
    → y.next < 2 ^ 64
    → kfree h (ahead b header) ≡ joined (marked h b) b (x.size + y.size) y.next
unfolding kfree merge_block
kfree-joined h b x y nonnull here there next free apart front short low =
    let e : (ahead b header == 0) ≡ false = ground arith in
    let e' : ahead b header - 24 * header ≡ b = omega arith in
    let x' : HeapBlock = record x { free = true } in
    let here' : block_at (mem (marked h b)) b ≡ x' =
      set_free-block_at (mem h) b true ∙ ap (λ (r : HeapBlock). record r { free = true }) here in
    let there' : block_at (mem (marked h b)) x.next ≡ y =
      set_free-Apart (mem h) b x.next apart true ∙ there in
    let total = x.size + y.size in
    let j = joined (marked h b) b total y.next in
    let merged : merge_next (marked h b) b ≡ j =
      merge_next-joined (marked h b) b x' y here' there' next free apart in
    let whole : block_at (mem j) b ≡ record x' { size = total; next = y.next } =
      joined-block_at (marked h b) b total y.next short low
      ∙ ap (λ (r : HeapBlock). record r { size = total; next = y.next }) here' in
    let skips : (x.prev ≡ 0) ⊎ ((block_at (mem j) x.prev).free ≡ false) =
      still_used x.prev (mem h) (mem j)
        (λ c a. joined-Apart (marked h b) b total y.next c a ∙ set_free-Apart (mem h) b c a true)
        front in
    rw (e, e', merged) (merge_prev-none j b (record x' { size = total; next = y.next }) whole skips)
  where
    still_used :
        (p : ℕ) (m k : Memory)
        → ((c : ℕ) → Apart b c → block_at k c ≡ block_at m c)
        → (p ≡ 0) ⊎ (Apart b p × ((block_at m p).free ≡ false))
        → (p ≡ 0) ⊎ ((block_at k p).free ≡ false)
    still_used p m k same (inl none) = inl none
    still_used p m k same (inr (a, used)) = inr (ap (λ (r : HeapBlock). r.free) (same p a) ∙ used)

pub joined_starts :
    (h : Heap) (b size next : ℕ) → (joined (marked h b) b size next).heap_start ≡ h.heap_start
unfolding joined
joined_starts h b size next = refl

pub joined_counted :
    (h : Heap) (b size next : ℕ)
    → 0 < h.block_count
    → h.block_count < 2 ^ 32
    → (joined (marked h b) b size next).block_count ≡ h.block_count - 1
unfolding joined
joined_counted h b size next some_blocks short = omega arith

-- Where there is no next block, nothing happens.
pub merge_next-none :
    (h : Heap) (b : ℕ) (x : HeapBlock) → block_at (mem h) b ≡ x → x.next ≡ 0 → merge_next h b ≡ h
unfolding merge_next
merge_next-none h b x here e = rw (here, e)
