-- ===== src/Base/Bits/Step.antt =====
-- The native bit operations are given by a recursion on digits with fuel. Here the fuel is taken
-- out: one equation for each operation, from the lowest digit to the rest.
use native.Mathlib.Omega.{arith}
use mathlib.Core.Path.{refl, ◌≡◌, ◌∙◌}
use Prim.Native.Nat.{
  zero, suc, ℕ, ◌≤◌, ◌+◌, ◌-◌, ◌*◌, ◌%◌, ◌/◌, max, min, digits, bitwise, bit_or, bit_and,
  bit_or-bitwise, bit_and-bitwise,
}

module _ (rest : ℕ → ℕ) (op : ℕ → ℕ → ℕ) where
  -- Fuel as large as the first operand is enough: one unit more changes nothing.
  one_more : (fuel x y : ℕ) → x ≤ fuel → digits rest op (suc fuel) x y ≡ digits rest op fuel x y
  one_more zero zero y h = refl
  one_more (suc fuel) zero y h = refl
  one_more zero (suc x) y h = absurd (omega arith)
  one_more (suc fuel) (suc x) y h = rw (one_more fuel (suc x / 2) (y / 2) (omega arith))

  much_more :
      (extra large fuel x y : ℕ)
      → large ≡ fuel + extra
      → x ≤ fuel
      → digits rest op large x y ≡ digits rest op fuel x y
  much_more zero large fuel x y e h = let same : large ≡ fuel = omega arith in rw same
  much_more (suc extra) large fuel x y e h =
      let next : large ≡ suc (fuel + extra) = omega arith in
      rw next
        (one_more (fuel + extra) x y (omega arith) ∙ much_more extra (fuel + extra) fuel x y refl h)

  -- The lowest digit of the result is `op` of the lowest digits.
  lowest :
      (x y : ℕ)
      → bitwise rest op (suc x) y ≡ op (suc x % 2) (y % 2) + 2 * bitwise rest op (suc x / 2) (y / 2)
  lowest x y =
      let half = suc x / 2 in
      omega (arith, much_more (x - half) x half half (y / 2) (omega arith) (omega arith))

pub bit_or_step : (x y : ℕ) → bit_or x y ≡ max (x % 2) (y % 2) + 2 * bit_or (x / 2) (y / 2)
bit_or_step zero y = rw (bit_or-bitwise 0 y, bit_or-bitwise 0 (y / 2)) (omega arith)
bit_or_step (suc x) y =
    rw (bit_or-bitwise (suc x) y, bit_or-bitwise (suc x / 2) (y / 2)) (lowest (λ z. z) max x y)

pub bit_and_step : (x y : ℕ) → bit_and x y ≡ min (x % 2) (y % 2) + 2 * bit_and (x / 2) (y / 2)
bit_and_step zero y = rw (bit_and-bitwise 0 y, bit_and-bitwise 0 (y / 2)) (omega arith)
bit_and_step (suc x) y =
    rw (bit_and-bitwise (suc x) y, bit_and-bitwise (suc x / 2) (y / 2)) (lowest (λ _. 0) min x y)

pub zero-bit_or : (y : ℕ) → bit_or 0 y ≡ y
zero-bit_or = bit_or-bitwise 0

pub zero-bit_and : (y : ℕ) → bit_and 0 y ≡ 0
zero-bit_and = bit_and-bitwise 0
