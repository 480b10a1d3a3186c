-- ===== src/Heap/Split.antt =====
-- What the cut of a block leaves in the memory.
use mad_os.Heap.Defs.{Heap, ahead, mem, block_at, set_size, set_free, set_next, split}
use mad_os.Heap.Blocks.{
  Apart, Outside, set_size_frame, set_free_frame, set_prev_frame, set_next_frame, set_size-Apart,
  set_free-Apart, set_prev-Apart, set_next-Apart, set_size-block_at, set_free-block_at,
  set_prev-block_at, set_next-block_at,
}
use mad_os.Base.{ℕ, ◌+◌, ◌-◌, ◌^◌, ◌<◌, ◌≡◌, inl, inr, true, false, u32, u64, arith}

module _ (h : Heap) (b size : ℕ) where
  -- A header apart from the block and from its rest stays as it was.
  pub split-Apart :
      (c : ℕ)
      → Apart b c
      → Apart (ahead b size) c
      → block_at (mem (split h b size).0) c ≡ block_at (mem h) c
  unfolding split
  split-Apart c here there = simp (
    set_prev-Apart _ (ahead b size) c there,
    set_next-Apart _ b c here,
    set_free-Apart _ (ahead b size) c there,
    set_size-Apart _ (ahead b size) c there,
    set_free-Apart _ b c here,
    set_size-Apart _ b c here,
  )

  -- Nothing but the two headers is written.
  pub split_frame :
      (a : ℕ) → Outside b a → Outside (ahead b size) a → mem (split h b size).0 a ≡ mem h a
  unfolding split
  split_frame a here there = simp (
    set_prev_frame _ (ahead b size) a there,
    set_next_frame _ b a here,
    set_free_frame _ (ahead b size) a there,
    set_size_frame _ (ahead b size) a there,
    set_free_frame _ b a here,
    set_size_frame _ b a here,
  )

  module _ (some_units : 0 < size) (fits : size < (block_at (mem h) b).size) where
    beside : Apart (ahead b size) b
    beside = inr (omega arith)

    beside' : Apart b (ahead b size)
    beside' = inl (omega arith)

    -- The block itself.
    pub split-taken :
        (block_at (mem h) b).size < 2 ^ 32
        → ahead b size < 2 ^ 64
        → block_at (mem (split h b size).0) b
          ≡ record (block_at (mem h) b) { size = size; free = false; next = ahead b size }
    unfolding split
    split-taken short low =
        let e : u32 size ≡ size = omega arith in
        let e' : u64 (ahead b size) ≡ ahead b size = omega arith in
        let n = ahead b size in
        let m1 = set_size (mem h) b size in
        let m2 = set_free m1 b false in
        let m3 = set_size m2 n (u32 ((block_at (mem h) b).size + 2 ^ 64 - size)) in
        let m4 = set_free m3 n true in
        let m5 = set_next m4 b n in
        rw (
          set_prev-Apart m5 n b beside b,
          set_next-block_at m4 b n,
          set_free-Apart m3 n b beside true,
          set_size-Apart m2 n b beside (u32 ((block_at (mem h) b).size + 2 ^ 64 - size)),
          set_free-block_at m1 b false,
          set_size-block_at (mem h) b size,
          e,
          e',
        )

    -- The block behind it.
    pub split-rest :
        (block_at (mem h) b).size < 2 ^ 32
        → b < 2 ^ 64
        → block_at (mem (split h b size).0) (ahead b size) ≡ record {
          size = (block_at (mem h) b).size - size;
          free = true;
          prev = b;
          next = (block_at (mem h) (ahead b size)).next;
        }
    unfolding split
    split-rest short low =
        let left = (block_at (mem h) b).size in
        let e : u32 (u32 (left + 2 ^ 64 - size)) ≡ left - size = omega arith in
        let e' : u64 b ≡ b = omega arith in
        let n = ahead b size in
        let m1 = set_size (mem h) b size in
        let m2 = set_free m1 b false in
        let m3 = set_size m2 n (u32 ((block_at (mem h) b).size + 2 ^ 64 - size)) in
        let m4 = set_free m3 n true in
        let m5 = set_next m4 b n in
        rw (
          set_prev-block_at m5 n b,
          set_next-Apart m4 b n beside' n,
          set_free-block_at m3 n true,
          set_size-block_at m2 n (u32 ((block_at (mem h) b).size + 2 ^ 64 - size)),
          set_free-Apart m1 b n beside' false,
          set_size-Apart (mem h) b n beside' size,
          e,
          e',
        )
