-- ===== src/Frames/Boot/Zero.antt =====
-- A freshly initialised bitmap has no bit set.
use mad_os.Frames.Defs.{Frames, page_used}
use mad_os.Frames.Boot.{zero_loop, clear_bitmap}
use mad_os.Base.{ℕ, zero, suc, ◌+◌, ◌*◌, ◌/◌, ◌≤◌, ◌<◌, ◌≡◌, ◌⊎◌, ◌∙◌, ap, false, arith}
use mad_os.Base.Bits.{zero-bit_and}
use mad_os.Bitmap.{Bitmap, get}
use mad_os.Memory.{Memory, fill, store8}
use mad_os.Memory.Laws.{fill-fill, fill-zero, store8-fill}

zero_loop-fill :
    (left : ℕ) (m : Memory) (buffer i : ℕ)
    → zero_loop left (fill m buffer i 0) buffer i ≡ fill m buffer (i + left) 0
unfolding zero_loop
zero_loop-fill zero m buffer i = ap (λ n. fill m buffer n 0) (omega arith)
zero_loop-fill (suc left) m buffer i =
    let grown : store8 (fill m buffer i 0) (buffer + i) 0 ≡ fill m buffer (i + 1) 0 =
      store8-fill (fill m buffer i 0) (buffer + i) 0
      ∙ fill-fill m buffer i (buffer + i) 1 0 (omega arith) (omega arith) (omega arith)
      ∙ ap (λ n. fill m buffer n 0) (omega arith) in
    rw grown (zero_loop-fill left m buffer (i + 1) ∙ ap (λ n. fill m buffer n 0) (omega arith))

-- The loop of `InitializeBitmap` is a `memset` of the buffer.
pub clear_bitmap-fill :
    (s : Frames) (size buffer : ℕ) → (clear_bitmap s size buffer).mem ≡ fill s.mem buffer size 0
unfolding clear_bitmap
clear_bitmap-fill s size buffer =
    let start : zero_loop size s.mem buffer 0 ≡ zero_loop size (fill s.mem buffer 0 0) buffer 0 =
      rw fill-zero in
    start ∙ zero_loop-fill size s.mem buffer 0 ∙ ap (λ n. fill s.mem buffer n 0) (omega arith)

fill_inside : (m : Memory) (a n c x : ℕ) → a ≤ x → x < a + n → fill m a n c x ≡ c
unfolding fill
fill_inside m a n c x lo hi = ground arith

pub fill_outside : (m : Memory) (a n c x : ℕ) → (x < a) ⊎ (a + n ≤ x) → fill m a n c x ≡ m x
unfolding fill
fill_outside m a n c x out = ground arith

get_zero : (m : Memory) (b : Bitmap) (j : ℕ) → m (b.buffer + j / 8) ≡ 0 → get m b j ≡ false
unfolding get
get_zero m b j h = rw (h, zero-bit_and) (ground arith)

pub clear_bitmap_bits :
    (s : Frames) (size buffer j : ℕ)
    → j < size * 8
    → page_used (clear_bitmap s size buffer) j ≡ false
unfolding clear_bitmap
clear_bitmap_bits s size buffer j h =
    get_zero (clear_bitmap s size buffer).mem (record { size = size; buffer = buffer }) j
      (rw (clear_bitmap-fill s size buffer)
        (fill_inside s.mem buffer size 0 (buffer + j / 8) (omega arith) (omega arith)))
