-- ===== src/Heap/Defs.antt =====
-- The blocks of the heap in memory, and the operations on them.
use mad_os.Base.{
  ℕ, zero, suc, ◌+◌, ◌-◌, ◌*◌, ◌%◌, ◌^◌, Bool, true, false, not, ◌&&◌, ltb, leb, ◌==◌,
  if◌then◌else◌, u32, u64,
}
use mad_os.Base.Run.{Run, done, out_of_fuel}
use mad_os.Memory.{Memory, store8, load32, load64, store32, store64}
use mad_os.Frames.{Frames, request_page}

-- `NULL` is 0. The fields lie 0, 4, 8 and 16 bytes behind the block's address.
pub record HeapBlock : Type 0 where
  pub size : ℕ
  pub free : Bool
  pub prev : ℕ
  pub next : ℕ

-- `sizeof(HeapBlock)`
abbrev pub header : ℕ
header = 24

-- `block + n` counts in units of `sizeof(HeapBlock)`.
abbrev pub ahead : ℕ → ℕ → ℕ
ahead b n = b + 24 * n

-- `*b`
unfoldable pub block_at : Memory → ℕ → HeapBlock
block_at m b = record {
  size = load32 m b;
  free = not (m (b + 4) == 0);
  prev = load64 m (b + 8);
  next = load64 m (b + 16);
}

unfoldable pub set_size : Memory → ℕ → ℕ → Memory
set_size m b v = store32 m b v

unfoldable pub set_free : Memory → ℕ → Bool → Memory
set_free m b f = store8 m (b + 4) (if f then 1 else 0)

unfoldable pub set_prev : Memory → ℕ → ℕ → Memory
set_prev m b p = store64 m (b + 8) p

unfoldable pub set_next : Memory → ℕ → ℕ → Memory
set_next m b p = store64 m (b + 16) p

-- `blockCount` is an `int`, kept here as its 32 bits.
pub record Heap : Type 0 where
  pub frames : Frames
  pub heap_start : ℕ
  pub heap_end : ℕ
  pub block_count : ℕ

abbrev pub mem : Heap → Memory
mem h = h.frames.mem

abbrev pub with_mem : Heap → Memory → Heap
with_mem h m = record h { frames = record h.frames { mem = m } }

-- The four stores that make a new page one free block.
unfoldable pub new_block : Memory → ℕ → ℕ → Memory
new_block m b prev = set_next (set_prev (set_free (set_size m b (4096 + header)) b true) b prev) b 0

unfoldable pub initialize_heap : Frames → Heap
initialize_heap s =
    let (t, b) = request_page s in
    record {
      frames = record t { mem = new_block t.mem b 0 };
      heap_start = b;
      heap_end = b;
      block_count = 1;
    }

-- The size made a multiple of 16.
unfoldable pub round_up : ℕ → ℕ
round_up size = if ltb 0 (size % 16) then u64 (size - size % 16 + 16) else size

-- The rounds of `for (int i = 0; i < blockCount; i++)`.
unfoldable pub rounds : ℕ → ℕ
rounds count = if ltb count (2 ^ 31) then count else 0

-- How the search of `kmalloc` ends: at a block that it takes, or with the last block it came to.
pub data Search : Type 0 where
  selected : ℕ → Search
  ran_out : ℕ → Search

-- The loop of `kmalloc`, with the rounds left.
unfoldable pub find : ℕ → Memory → ℕ → ℕ → Search
find zero m size b = ran_out b
find (suc left) m size b =
    let here = block_at m b in
    let rest = find left m size (if here.next == 0 then b else here.next) in
    if here.free && leb size here.size then selected b else rest

-- The block at `b` is cut behind `size` units; the address behind its header.
unfoldable pub split : Heap → ℕ → ℕ → Heap × ℕ
split h b size =
    let free_space = u32 ((block_at (mem h) b).size + 2 ^ 64 - size) in
    let n = ahead b size in
    let m = set_free (set_size (mem h) b size) b false in
    let m' = set_free (set_size m n free_space) n true in
    (
      record (with_mem h (set_prev (set_next m' b n) n b)) {
        block_count = u32 (h.block_count + 1);
      },
      ahead b header,
    )

unfoldable pub expand : Heap → ℕ → Heap
expand h prev =
    let (t, b) = request_page h.frames in
    record h {
      frames = record t { mem = set_next (new_block t.mem b prev) prev b };
      heap_end = b;
      block_count = u32 (h.block_count + 1);
    }

-- The first and the second half of `mergeBlock`.
unfoldable pub merge_next : Heap → ℕ → Heap
merge_next h b =
    let here = block_at (mem h) b in
    let behind = block_at (mem h) here.next in
    let m = set_size (mem h) b (here.size + behind.size) in
    if not (here.next == 0) && behind.free
    then record (with_mem h (set_next m b (block_at m (block_at m b).next).next)) {
      block_count = u32 (h.block_count + 2 ^ 32 - 1);
    }
    else h

unfoldable pub merge_prev : Heap → ℕ → Heap
merge_prev h b =
    let here = block_at (mem h) b in
    let front = block_at (mem h) here.prev in
    let m = set_size (mem h) here.prev (front.size + here.size) in
    if not (here.prev == 0) && front.free
    then record (with_mem h (set_next m (block_at m b).prev (block_at m b).next)) {
      block_count = u32 (h.block_count + 2 ^ 32 - 1);
    }
    else h

unfoldable pub merge_block : Heap → ℕ → Heap
merge_block h b = merge_prev (merge_next h b) b

-- `kmalloc`, with the calls of itself left: it calls itself with the enlarged size.
unfoldable pub kmalloc : ℕ → ℕ → Heap → Run (Heap × ℕ)
kmalloc zero size h = out_of_fuel
kmalloc (suc fuel) size h =
    let need = u64 (round_up size + header) in
    let again = λ (b : ℕ). let h' = expand h b in kmalloc fuel need (merge_block h' h'.heap_end) in
    let result =
      elim (find (rounds h.block_count) (mem h) need h.heap_start) as (λ _. Run (Heap × ℕ)) [
        | selected b ↦ done (split h b need)
        | ran_out b ↦ again b
      ] in
    if round_up size == 0 then done (h, 0) else result

unfoldable pub kfree : Heap → ℕ → Heap
kfree h ptr =
    let b = ptr - 24 * header in
    if ptr == 0 then h else merge_block (with_mem h (set_free (mem h) b true)) b
