-- ===== src/Strings.antt =====
-- The string functions of kernel/src/cstr.cpp, on bytes in memory. A `char` is a byte here; the
-- functions compare only with letters below 128, for which its sign does not matter.
pub mod Compare
pub mod Decimal
pub mod Swap
pub mod Print
pub mod RoundTrip
pub mod Hex
use mad_os.Base.{
  ℕ, zero, suc, ◌+◌, ◌-◌, ◌*◌, ◌/◌, ◌%◌, ◌^◌, Bool, true, false, not, ◌&&◌, ◌==◌, ltb, leb,
  if◌then◌else◌, u32, bit_xor,
}
use mad_os.Base.Run.{Run, done, fault, out_of_fuel, ◌>>=◌}
use mad_os.Memory.{Memory, store8}

-- The loop of `strcmp`, with the rounds left.
unfoldable pub compare_loop : ℕ → Memory → (str val i : ℕ) → Bool
compare_loop zero m str val i = true
compare_loop (suc left) m str val i =
    let rest = compare_loop left m str val (i + 1) in
    if m (str + i) == m (val + i) then rest else false

unfoldable pub strcmp : Memory → (str val val_length : ℕ) → Bool
strcmp m str val val_length = compare_loop val_length m str val 0

abbrev pub is_digit : ℕ → Bool
is_digit c = leb 48 c && leb c 57

-- The loop of `atoi`. The variable `num` is an `int` that only falls: `fallen` stands for `-num`. Below
-- `-2 ^ 31` it would overflow, which is undefined.
unfoldable pub atoi_loop : ℕ → Memory → (p fallen : ℕ) → Run ℕ
atoi_loop zero m p fallen = out_of_fuel
atoi_loop (suc fuel) m p fallen = elim (is_digit (m p)) [
  | true ↦ elim (ltb (2 ^ 31) (fallen * 10 + (m p - 48))) [
    | true ↦ fault
    | false ↦ atoi_loop fuel m (p + 1) (fallen * 10 + (m p - 48))
  ]
  | false ↦ if fallen == 2 ^ 31 then fault else done fallen
]

-- On fuel, the number of bytes that may be read.
unfoldable pub atoi : ℕ → Memory → ℕ → Run ℕ
atoi fuel m str = atoi_loop fuel m str 0

-- `while(n1 != 0)` of `to_string`: the memory and `i` at the end.
unfoldable pub digits_loop : ℕ → Memory → (buffer i n1 : ℕ) → Run (Memory × ℕ)
digits_loop zero m buffer i n1 = if n1 == 0 then done (m, i) else out_of_fuel
digits_loop (suc fuel) m buffer i n1 =
    let rest = digits_loop fuel (store8 m (buffer + i) (n1 % 10 + 48)) buffer (i + 1) (n1 / 10) in
    if n1 == 0 then done (m, i) else rest

-- The three assignments that swap the bytes at two addresses.
unfoldable pub xor_swap : Memory → (a b : ℕ) → Memory
xor_swap m a b =
    let m1 = store8 m a (bit_xor (m a) (m b)) in
    let m2 = store8 m1 b (bit_xor (m1 b) (m1 a)) in store8 m2 a (bit_xor (m2 a) (m2 b))

-- `for(int t = 0; t < i/2; t++)`, with the rounds left.
unfoldable pub reverse_loop : ℕ → Memory → (buffer i t : ℕ) → Memory
reverse_loop zero m buffer i t = m
reverse_loop (suc left) m buffer i t =
    reverse_loop left (xor_swap m (buffer + t) (buffer + (i - t - 1))) buffer i (t + 1)

-- `to_string(int64_t)`; `n` is the 64-bit word, and `n1` an `unsigned int`.
-- The negation of the least word overflows, which is undefined.
unfoldable pub to_string : Memory → (buffer n : ℕ) → Run Memory
to_string m buffer n =
    let is_neg = leb (2 ^ 63) n in
    let n1 = u32 (if is_neg then 2 ^ 64 - n else n) in
    (if n == 2 ^ 63 then fault else digits_loop n1 m buffer 0 n1) >>= λ r.
    let m1 = if is_neg then store8 r.0 (buffer + r.1) 45 else r.0 in
    let i = if is_neg then r.1 + 1 else r.1 in
    let m2 = store8 m1 (buffer + i) 0 in
    let m3 = reverse_loop (i / 2) m2 buffer i 0 in
    done (if n == 0 then store8 (store8 m3 buffer 48) (buffer + 1) 0 else m3)
