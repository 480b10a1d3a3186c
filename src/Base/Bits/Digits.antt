-- ===== src/Base/Bits/Digits.antt =====
-- The binary digits of a number, and the bit operations digit by digit.
use mad_os.Base.Bits.Step
use mad_os.Base.Bits.Step.{bit_and_step, bit_or_step}
use mad_os.Base.Bits.Fields
use Prim.Native.Nat.{
  ℕ, zero, suc, ◌+◌, ◌-◌, ◌*◌, ◌/◌, ◌%◌, ◌^◌, ◌≤◌, ◌<◌, min, max, bit_and, bit_or,
}
use mathlib.Core.Path.{◌≡◌, refl, sym, ap, ◌∙◌}
use mathlib.Core.Logic.{◌≢◌}
use native.Mathlib.Omega.{arith}
use native.Mathlib.Nat.{pow-suc, pow-succ', div-div-eq-div-mul}

-- Digit `i` of `x`, counted from the lowest.
unfoldable pub bit : ℕ → ℕ → ℕ
bit x zero = x % 2
bit x (suc i) = bit (x / 2) i

pub bit-lt : (x i : ℕ) → bit x i < 2
unfolding bit
bit-lt x zero = omega arith
bit-lt x (suc i) = bit-lt (x / 2) i

half_and : (a b : ℕ) → bit_and a b / 2 ≡ bit_and (a / 2) (b / 2)
half_and a b = omega (arith, bit_and_step a b)

half_or : (a b : ℕ) → bit_or a b / 2 ≡ bit_or (a / 2) (b / 2)
half_or a b = omega (arith, bit_or_step a b)

pub bit-bit_and : (a b i : ℕ) → bit (bit_and a b) i ≡ min (bit a i) (bit b i)
unfolding bit
bit-bit_and a b zero = omega (arith, bit_and_step a b)
bit-bit_and a b (suc i) = rw (half_and a b) (bit-bit_and (a / 2) (b / 2) i)

pub bit-bit_or : (a b i : ℕ) → bit (bit_or a b) i ≡ max (bit a i) (bit b i)
unfolding bit
bit-bit_or a b zero = omega (arith, bit_or_step a b)
bit-bit_or a b (suc i) = rw (half_or a b) (bit-bit_or (a / 2) (b / 2) i)

half_complement : (w x : ℕ) → x < 2 ^ suc w → (2 ^ suc w - 1 - x) / 2 ≡ 2 ^ w - 1 - x / 2
half_complement w x h = omega (arith, pow-suc 2 w)

pub bit-complement : (w x i : ℕ) → x < 2 ^ w → i < w → bit (2 ^ w - 1 - x) i ≡ 1 - bit x i
unfolding bit
bit-complement zero x i h lt = elim lt [ ]
bit-complement (suc w) x zero h lt = omega (arith, pow-suc 2 w)
bit-complement (suc w) x (suc i) h lt =
    rw (half_complement w x h)
      (bit-complement w (x / 2) i (omega (arith, pow-suc 2 w)) (omega arith))

bit-zero : (i : ℕ) → bit 0 i ≡ 0
unfolding bit
bit-zero zero = refl
bit-zero (suc i) = bit-zero i

half_pow : (k : ℕ) → 2 ^ suc k / 2 ≡ 2 ^ k
half_pow k = omega (arith, pow-suc 2 k)

pub bit-pow_self : (k : ℕ) → bit (2 ^ k) k ≡ 1
unfolding bit
bit-pow_self zero = refl
bit-pow_self (suc k) = rw (half_pow k) (bit-pow_self k)

pub bit-pow_ne : (k i : ℕ) → k ≢ i → bit (2 ^ k) i ≡ 0
unfolding bit
bit-pow_ne zero zero h = absurd (h refl)
bit-pow_ne zero (suc i) h = bit-zero i
bit-pow_ne (suc k) zero h = omega (arith, pow-suc 2 k)
bit-pow_ne (suc k) (suc i) h = rw (half_pow k) (bit-pow_ne k i (λ e. h (omega arith)))

-- Numbers of `w` digits with the same digits are equal.
pub bit_ext : (w a b : ℕ) → a < 2 ^ w → b < 2 ^ w → ((i : ℕ) → i < w → bit a i ≡ bit b i) → a ≡ b
unfolding bit
bit_ext zero a b ha hb same = omega arith
bit_ext (suc w) a b ha hb same =
    let low : a % 2 ≡ b % 2 = same 0 (omega arith) in
    let high : a / 2 ≡ b / 2 =
      bit_ext w (a / 2) (b / 2) (omega (arith, pow-suc 2 w)) (omega (arith, pow-suc 2 w))
        (λ i h. same (suc i) (omega arith)) in
    omega arith

pub bit_and-lt : (w a b : ℕ) → a < 2 ^ w → bit_and a b < 2 ^ w
bit_and-lt zero a b h = omega (arith, bit_and_step a b, zero_and_half a b (omega arith))
  where
    zero_and_half : (a b : ℕ) → a ≡ 0 → bit_and (a / 2) (b / 2) ≡ 0
    zero_and_half a b e = rw e (Step.zero-bit_and (b / 2))
bit_and-lt (suc w) a b h = omega (
  arith,
  bit_and_step a b,
  pow-suc 2 w,
  bit_and-lt w (a / 2) (b / 2) (omega (arith, pow-suc 2 w)),
)

pub bit_or-lt : (w a b : ℕ) → a < 2 ^ w → b < 2 ^ w → bit_or a b < 2 ^ w
bit_or-lt zero a b h k =
    let p : a ≡ 0 = omega arith in let q : b ≡ 0 = omega arith in rw (p, q) (omega arith)
bit_or-lt (suc w) a b h k = omega (
  arith,
  bit_or_step a b,
  pow-suc 2 w,
  bit_or-lt w (a / 2) (b / 2) (omega (arith, pow-suc 2 w)) (omega (arith, pow-suc 2 w)),
)

-- A mask of one bit.
pub bit_and-pow : (x k : ℕ) → bit_and x (2 ^ k) ≡ bit x k * 2 ^ k
unfolding bit
bit_and-pow x zero = Fields.bit_and_mask 1 x ∙ omega arith
bit_and-pow x (suc k) =
    let up : bit_and (x / 2) (2 ^ suc k / 2) ≡ bit (x / 2) k * 2 ^ k =
      rw (half_pow k) (bit_and-pow (x / 2) k) in
    omega (arith, up, bit_and_step x (2 ^ suc k), pow-suc 2 k, Fields.shift_suc (bit (x / 2) k) k)

pub bit-div : (x n j : ℕ) → bit (x / 2 ^ n) j ≡ bit x (n + j)
unfolding bit
bit-div x zero j = rw (zero_add j) (ap (λ y. bit y j) (omega arith))
  where
    zero_add : (j : ℕ) → 0 + j ≡ j
    zero_add j = omega arith
bit-div x (suc n) j =
    let halves : x / 2 ^ suc n ≡ x / 2 / 2 ^ n =
      ap (λ p. x / p) (pow-succ' 2 n) ∙ sym (div-div-eq-div-mul x 2 (2 ^ n)) in
    let index : suc n + j ≡ suc (n + j) = omega arith in rw (halves, index) (bit-div (x / 2) n j)

-- A number of `w` digits has no more.
pub bit_high : (w x i : ℕ) → x < 2 ^ w → w ≤ i → bit x i ≡ 0
unfolding bit
bit_high zero x i h le = let e : x ≡ 0 = omega arith in rw e (bit-zero i)
bit_high (suc w) x zero h le = absurd (omega arith)
bit_high (suc w) x (suc i) h le = bit_high w (x / 2) i (omega (arith, pow-suc 2 w)) (omega arith)
