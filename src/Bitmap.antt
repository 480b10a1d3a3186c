-- ===== src/Bitmap.antt =====
-- The class `Bitmap` of kernel/src/Bitmap.cpp: one bit for each page, the highest bit of a byte
-- first, in a buffer that lies in physical memory.
pub mod Laws
use mad_os.Base.{
  ℕ, ◌+◌, ◌*◌, ◌/◌, ◌%◌, ◌^◌, ◌-◌, Bool, true, false, ltb, if◌then◌else◌, u8, u64, ◌>>>◌,
  complement, bit_and, bit_or,
}
use mad_os.Base.Bits.{write_mask}
use mad_os.Memory.{Memory, store8}

pub record Bitmap : Type 0 where
  pub size : ℕ
  pub buffer : ℕ

-- The test `index > size * 8` of both accessors.
abbrev pub beyond : Bitmap → ℕ → Bool
beyond b index = ltb (u64 (b.size * 8)) index

-- `0b10000000 >> bitIndex`
abbrev pub bit_indexer : ℕ → ℕ
bit_indexer index = u8 (0x80 >>> (index % 8))

unfoldable pub get : Memory → Bitmap → ℕ → Bool
get m b index =
    if beyond b index then false else ltb 0 (bit_and (m (b.buffer + index / 8)) (bit_indexer index))

-- The memory after the call, and the Boolean that it returns.
unfoldable pub set : Memory → Bitmap → ℕ → Bool → Memory × Bool
set m b index value = if beyond b index then (m, false) else (
  store8 m (b.buffer + index / 8)
      (write_mask 8 (m (b.buffer + index / 8)) (bit_indexer index) value),
  true,
)
