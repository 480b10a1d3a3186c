-- ===== src/Strings/Hex.antt =====
-- The four `to_hstring` of kernel/src/cstr.cpp, for words of 64, 32, 16 and 8 bits. `value` is the
-- address of the parameter, and `buffer` that of the function's own buffer.
use mad_os.Base.{
  ℕ, zero, suc, ◌+◌, ◌-◌, ◌*◌, ◌/◌, ◌%◌, ◌^◌, ◌≤◌, ◌<◌, ◌≡◌, ◌⊎◌, refl, true, ◌==◌, ltb,
  if◌then◌else◌, ◌>>>◌, u8, bit_and, get_or, codes, ==_iff, arith,
}
use mad_os.Base.Bits.{bit_and_fields, bit_and_mask, bit_and-zero}
use mad_os.Memory.{Memory, store8}
use mad_os.Strings.Swap.{all_below, all_below-at}

-- `tmp + (tmp > 9 ? 55 : '0')`
unfoldable pub hex_digit : ℕ → ℕ
hex_digit tmp = u8 (tmp + (if ltb 9 tmp then 55 else 48))

-- The body of the loops. The second index is behind the first, both may lie in front of the buffer.
unfoldable pub put_byte : Memory → (value buffer size i : ℕ) → Memory
put_byte m value buffer size i =
    let p = value + i in
    let m1 = store8 m (buffer + size - (i * 2 + 1)) (hex_digit (bit_and (m p) 0xf0 >>> 4)) in
    store8 m1 (buffer + size - i * 2) (hex_digit (bit_and (m1 p) 0x0f))

-- The loops, with the rounds left.
unfoldable pub hex_loop : ℕ → Memory → (value buffer size i : ℕ) → Memory
hex_loop zero m value buffer size i = m
hex_loop (suc left) m value buffer size i =
    hex_loop left (put_byte m value buffer size i) value buffer size (i + 1)

unfoldable pub to_hstring64 : Memory → (value buffer : ℕ) → Memory
to_hstring64 m value buffer = store8 (hex_loop 15 m value buffer 15 0) (buffer + 16) 0

-- `other` is the buffer of the function for 64 bits, to which the zero byte goes.
unfoldable pub to_hstring32 : Memory → (value buffer other : ℕ) → Memory
to_hstring32 m value buffer other = store8 (hex_loop 3 m value buffer 3 0) (other + 4) 0

unfoldable pub to_hstring16 : Memory → (value buffer other : ℕ) → Memory
to_hstring16 m value buffer other = store8 (hex_loop 3 m value buffer 3 0) (other + 4) 0

unfoldable pub to_hstring8 : Memory → (value buffer : ℕ) → Memory
to_hstring8 m value buffer = store8 (hex_loop 1 m value buffer 1 0) (buffer + 2) 0

-- The digits of base 16, from a table.
abbrev pub hex : ℕ → ℕ
hex d = get_or (codes "0123456789ABCDEF") d 0

hex_table : all_below 16 (λ d. hex_digit d == hex d) ≡ true
unfolding all_below hex_digit
hex_table = refl

hex_digit-hex : (d : ℕ) → d < 16 → hex_digit d ≡ hex d
hex_digit-hex d h = (==_iff _ _).0 (all_below-at 16 (λ d. hex_digit d == hex d) d hex_table h)

high_digit : (b : ℕ) → b < 256 → hex_digit (bit_and b 0xf0 >>> 4) ≡ hex (b / 16)
high_digit b h =
    let parts : b / 16 * 2 ^ 4 + b % 16 ≡ b = omega arith in
    let masked : bit_and b 0xf0 ≡ bit_and (b / 16) 15 * 2 ^ 4 + bit_and (b % 16) 0 =
      rw parts at (bit_and_fields 4 (b / 16) (b % 16) 15 0 (omega arith) (omega arith)) in
    let e : bit_and b 0xf0 >>> 4 ≡ b / 16 =
      omega (arith, masked, bit_and-zero (b % 16), bit_and_mask 4 (b / 16)) in
    rw e (hex_digit-hex (b / 16) (omega arith))

low_digit : (b : ℕ) → hex_digit (bit_and b 0x0f) ≡ hex (b % 16)
low_digit b = rw (bit_and_mask 4 b) (hex_digit-hex (b % 16) (omega arith))

-- What one round leaves: two digits, and the rest as it was.
put_byte_lem :
    (m : Memory) (value buffer size i x : ℕ)
    → m (value + i) < 256
    → i * 2 + 1 ≤ buffer + size
    → (value + i < buffer + size - (i * 2 + 1)) ⊎ (buffer + size - i * 2 < value + i)
    → put_byte m value buffer size i x ≡ (
        if x == buffer + size - (i * 2 + 1)
        then hex (m (value + i) / 16)
        else if x == buffer + size - i * 2
        then hex (m (value + i) % 16)
        else m x)
unfolding put_byte store8
put_byte_lem m value buffer size i x byte room apart =
    ground (arith, high_digit (m (value + i)) byte, low_digit (m (value + i)))

-- `to_hstring` of a byte that does not lie in the buffer writes its two digits of base 16, the higher
-- first, and the zero byte behind them, and changes nothing else.
pub to_hstring8-digits :
    (m : Memory) (value buffer : ℕ)
    → m value < 256
    → (value < buffer) ⊎ (buffer + 1 < value)
    → (to_hstring8 m value buffer buffer ≡ hex (m value / 16))
      × (to_hstring8 m value buffer (buffer + 1) ≡ hex (m value % 16))
      × (to_hstring8 m value buffer (buffer + 2) ≡ 0)
      × ((x : ℕ) → (x < buffer) ⊎ (buffer + 2 < x) → to_hstring8 m value buffer x ≡ m x)
unfolding to_hstring8 hex_loop store8
to_hstring8-digits m value buffer byte apart =
    let e : value + 0 ≡ value = omega arith in
    let round = λ (x : ℕ).
      rw e at
        (put_byte_lem m value buffer 1 0 x (rw e byte) (omega arith) (ground (arith, apart))) in
    (
      ground (arith, round buffer),
      ground (arith, round (buffer + 1)),
      ground arith,
      λ x out. ground (arith, round x, out),
    )

module _ (m : Memory) (value buffer : ℕ) where
  module _ (front : 2 ≤ buffer) (apart : (value + 2 < buffer - 2) ⊎ (buffer + 3 < value))
      (low : m value < 256) (high : m (value + 1) < 256) (stray : m (value + 2) < 256) where
    -- What three rounds with the size 3 leave.
    three_rounds :
        (x : ℕ)
        → hex_loop 3 m value buffer 3 0 x ≡ (
            if x == buffer - 2
            then hex (m (value + 2) / 16)
            else if x == buffer - 1
            then hex (m (value + 2) % 16)
            else if x == buffer
            then hex (m (value + 1) / 16)
            else if x == buffer + 1
            then hex (m (value + 1) % 16)
            else if x == buffer + 2
            then hex (m value / 16)
            else if x == buffer + 3
            then hex (m value % 16)
            else m x)
    unfolding hex_loop
    three_rounds x =
        let e : value + 0 ≡ value = omega arith in
        let m1 = put_byte m value buffer 3 0 in
        let m2 = put_byte m1 value buffer 3 1 in
        let first = λ (y : ℕ).
          rw e at
            (put_byte_lem m value buffer 3 0 y (rw e low) (omega arith) (ground (arith, apart))) in
        let at1 : m1 (value + 1) ≡ m (value + 1) = ground (arith, first (value + 1), apart) in
        let at2 : m1 (value + 2) ≡ m (value + 2) = ground (arith, first (value + 2), apart) in
        let second = λ (y : ℕ). rw at1 at (
          put_byte_lem m1 value buffer 3 1 y (rw at1 high) (omega arith) (ground (arith, apart))) in
        let at2' : m2 (value + 2) ≡ m (value + 2) =
          ground (arith, second (value + 2), at2, apart) in
        let third = rw at2' at (
          put_byte_lem m2 value buffer 3 2 x (rw at2' stray) (omega arith)
            (ground (arith, apart))) in
        ground (arith, first x, second x, third)

-- `to_hstring` of a word of 16 bits, at `value`, writes its four digits of base 16 to its buffer, the
-- highest first. It also writes the two digits of the byte behind the word to the two bytes in front
-- of the buffer; and the zero byte goes to the buffer for 64 bits, so that the byte behind the four
-- digits stays as it was. This holds where the word and the byte behind it lie outside the six bytes
-- that are written, and the other buffer's byte is none of these.
pub to_hstring16-digits :
    (m : Memory) (value buffer other : ℕ)
    → 2 ≤ buffer
    → (value + 2 < buffer - 2) ⊎ (buffer + 3 < value)
    → m value < 256
    → m (value + 1) < 256
    → m (value + 2) < 256
    → (other + 4 < buffer - 2) ⊎ (buffer + 4 < other + 4)
    → (to_hstring16 m value buffer other buffer ≡ hex (m (value + 1) / 16))
      × (to_hstring16 m value buffer other (buffer + 1) ≡ hex (m (value + 1) % 16))
      × (to_hstring16 m value buffer other (buffer + 2) ≡ hex (m value / 16))
      × (to_hstring16 m value buffer other (buffer + 3) ≡ hex (m value % 16))
      × (to_hstring16 m value buffer other (buffer + 4) ≡ m (buffer + 4))
      × (to_hstring16 m value buffer other (buffer - 2) ≡ hex (m (value + 2) / 16))
      × (to_hstring16 m value buffer other (buffer - 1) ≡ hex (m (value + 2) % 16))
      × (to_hstring16 m value buffer other (other + 4) ≡ 0)
unfolding to_hstring16 store8
to_hstring16-digits m value buffer other front apart low high stray away =
    let shown = three_rounds m value buffer front apart low high stray in
    (
      ground (arith, shown buffer, away),
      ground (arith, shown (buffer + 1), away),
      ground (arith, shown (buffer + 2), away),
      ground (arith, shown (buffer + 3), away),
      ground (arith, shown (buffer + 4), away),
      ground (arith, shown (buffer - 2), away),
      ground (arith, shown (buffer - 1), away),
      ground arith,
    )
