-- ===== src/MemSet.antt =====
-- `memset` of kernel/src/mem/mem.cpp, with its three ways: overlapping scalar stores for short
-- buffers, unaligned vector stores for middle ones, and an aligned, unrolled loop for long ones.
-- `c` is the byte to set. A `char32` store is a fill of 32 bytes of it; a `char32a` store is one
-- too, and a fault where the address is no multiple of 32, as the processor's aligned move is.
pub mod Short
pub mod Correct
use mad_os.Base.{
  ℕ, zero, suc, ◌+◌, ◌-◌, ◌*◌, ◌%◌, ◌^◌, Bool, true, false, ◌==◌, leb, ltb, if◌then◌else◌, u8, u32,
  u64,
}
use mad_os.Base.Run.{Run, done, fault, out_of_fuel, ◌>>=◌}
use mad_os.Memory.{Memory, store8, store32, store64, fill}

-- `(uint64_t)0x0101010101010101L * ((uint8_t)c)`
val8 : ℕ → ℕ
val8 c = u64 (0x0101010101010101 * u8 c)

pub small_memset : Memory → ℕ → ℕ → ℕ → Memory
unfolding val8
small_memset m s c n =
    if ltb n 5
    then (if n == 0
        then m
        else let m' = store8 (store8 m s (u8 c)) (s + n - 1) (u8 c) in
          if leb n 2 then m' else store8 (store8 m' (s + 1) (u8 c)) (s + 2) (u8 c))
    else if leb n 16
    then (if leb 8 n
        then store64 (store64 m s (val8 c)) (s + n - 8) (val8 c)
        else store32 (store32 m s (u32 (val8 c))) (s + n - 4) (u32 (val8 c)))
    else fill (fill m (s + n - 16) 16 (u8 c)) s 16 (u8 c)

-- `*((char32a *)p) = val32`
pub store_aligned : Memory → ℕ → ℕ → Run Memory
store_aligned m p c = if p % 32 == 0 then done (fill m p 32 c) else fault

-- The unrolled body of the loop: five stores, each followed by `p += 32`.
stamp_five : Memory → ℕ → ℕ → Run Memory
unfolding store_aligned
stamp_five m p c = do
  m ← store_aligned m p c
  m ← store_aligned m (p + 32) c
  m ← store_aligned m (p + 32 + 32) c
  m ← store_aligned m (p + 32 + 32 + 32) c
  store_aligned m (p + 32 + 32 + 32 + 32) c

-- `while (p + (32 * 5) < buffer_end)`: the memory and `p` at the end.
huge_loop : ℕ → Memory → ℕ → ℕ → ℕ → Run (Memory × ℕ)
huge_loop zero m p buffer_end c = out_of_fuel
huge_loop (suc fuel) m p buffer_end c = elim (ltb (p + 32 * 5) buffer_end) [
  | true ↦ stamp_five m p c >>= λ m'. huge_loop fuel m' (p + 32 * 5) buffer_end c
  | false ↦ done (m, p)
]

-- `TRY_STAMP_32_BYTES`
try_stamp : ℕ → ℕ → Memory × ℕ → Run (Memory × ℕ)
try_stamp last_word c (m, p) =
    if ltb p last_word then (store_aligned m p c >>= λ m'. done (m', p + 32)) else done (m, p)

huge_memset : Memory → ℕ → ℕ → ℕ → Run Memory
unfolding huge_loop stamp_five store_aligned try_stamp
huge_memset m s c n =
    let last_word = s + n - 32 in
    huge_loop n (fill m s 32 c) (s + 32 - s % 32) (s + n) c
    >>= try_stamp last_word c
    >>= try_stamp last_word c
    >>= try_stamp last_word c
    >>= try_stamp last_word c
    >>= λ r. done (fill r.0 last_word 32 c)

-- `do { store; p += 32; } while (p < last_word);`
middle_loop : ℕ → Memory → ℕ → ℕ → ℕ → Run Memory
middle_loop zero m p last_word c = out_of_fuel
middle_loop (suc fuel) m p last_word c =
    let m' = fill m p 32 c in
    elim (ltb (p + 32) last_word) [
      | true ↦ middle_loop fuel m' (p + 32) last_word c
      | false ↦ done m'
    ]

unfoldable pub memset : Memory → ℕ → ℕ → ℕ → Run Memory
unfolding small_memset huge_memset middle_loop
memset m s c n =
    if ltb n 32
    then done (small_memset m s c n)
    else if ltb 160 n
    then huge_memset m s c n
    else middle_loop n m s (s + n - 32) c >>= λ m'. done (fill m' (s + n - 32) 32 c)
