-- ===== src/Base/Bits/Write.antt =====
-- The idiom `x &= ~mask; if (value) x |= mask;` for a mask of one bit, at any width.
use mad_os.Base.Tests.{if◌then◌else◌, ◌==◌, ltb}
use mad_os.Base.Word.{complement}
use mad_os.Base.Bits.Digits.{
  bit, bit-lt, bit-bit_and, bit-bit_or, bit-complement, bit-pow_self, bit-pow_ne, bit_and-pow,
  bit_and-lt, bit_or-lt, bit_ext, bit_high, bit-div,
}
use Prim.Native.Nat.{ℕ, zero, suc, ◌+◌, ◌*◌, ◌^◌, ◌<◌, ◌≤◌, ◌/◌, bit_and, bit_or}
use mathlib.Core.Path.{◌≡◌, sym, ◌∙◌}
use mathlib.Core.Logic.{◌≢◌}
use mathlib.Core.Bool.{Bool}
use native.Mathlib.Omega.{arith}
use native.Mathlib.Decide.{dec_lt}
use native.Mathlib.Nat.{one-le-pow, pow-suc}

-- A word of `w` bits after `&= ~mask`, and `|= mask` if the bit is to be set.
unfoldable pub write_mask : ℕ → ℕ → ℕ → Bool → ℕ
write_mask w x mask value =
    let cleared = bit_and x (complement w mask) in if value then bit_or cleared mask else cleared

abbrev pub digit : Bool → ℕ
digit v = if v then 1 else 0

pub pow-lt-pow : (k w : ℕ) → k < w → 2 ^ k < 2 ^ w
pow-lt-pow zero zero h = absurd (omega arith)
pow-lt-pow (suc k) zero h = absurd (omega arith)
pow-lt-pow zero (suc w) h = omega (arith, pow-suc 2 w, one-le-pow w 2 (omega arith))
pow-lt-pow (suc k) (suc w) h = omega (arith, pow-suc 2 w, pow-suc 2 k, pow-lt-pow k w (omega arith))

module _ (w x k : ℕ) (h : k < w) where
  pub bit-write_mask_self : (v : Bool) → bit (write_mask w x (2 ^ k) v) k ≡ digit v
  unfolding write_mask
  bit-write_mask_self v = ground (
    arith,
    bit-bit_or (bit_and x (complement w (2 ^ k))) (2 ^ k) k,
    bit-bit_and x (complement w (2 ^ k)) k,
    bit-complement w (2 ^ k) k (pow-lt-pow k w h) h,
    bit-pow_self k,
    bit-lt x k,
  )

  pub bit-write_mask_ne :
      (v : Bool) (j : ℕ) → j < w → k ≢ j → bit (write_mask w x (2 ^ k) v) j ≡ bit x j
  unfolding write_mask
  bit-write_mask_ne v j hj ne = ground (
    arith,
    bit-bit_or (bit_and x (complement w (2 ^ k))) (2 ^ k) j,
    bit-bit_and x (complement w (2 ^ k)) j,
    bit-complement w (2 ^ k) j (pow-lt-pow k w h) hj,
    bit-pow_ne k j ne,
    bit-lt x j,
  )

  pub write_mask-lt : (v : Bool) → x < 2 ^ w → write_mask w x (2 ^ k) v < 2 ^ w
  unfolding write_mask
  write_mask-lt v small = ground (
    arith,
    bit_or-lt w (bit_and x (complement w (2 ^ k))) (2 ^ k),
    bit_and-lt w x (complement w (2 ^ k)) small,
    pow-lt-pow k w h,
  )

-- The test `(x & mask) > 0` for a mask of one bit.
pub ltb-bit_and-pow : (x k : ℕ) → ltb 0 (bit_and x (2 ^ k)) ≡ (bit x k == 1)
ltb-bit_and-pow x k =
    ground (arith, bit_and-pow x k, bit-lt x k, one-le-pow k 2, digits_cases (bit x k) (2 ^ k))
  where
    digits_cases : (d p : ℕ) → d < 2 → 0 < p → ltb 0 (d * p) ≡ (d == 1)
    digits_cases zero p h pos = ground arith
    digits_cases (suc zero) p h pos = ground arith
    digits_cases (suc (suc d)) p h pos = absurd (omega arith)

-- Writing a bit below `n` leaves the digits from `n` on.
pub write_mask_above :
    (w x k n : ℕ) (v : Bool)
    → k < n
    → n ≤ w
    → x < 2 ^ w
    → write_mask w x (2 ^ k) v / 2 ^ n ≡ x / 2 ^ n
write_mask_above w x k n v below le small =
    bit_ext w (y / 2 ^ n) (x / 2 ^ n) (omega (arith, y_small)) (omega arith) same
  where
    y : ℕ
    y = write_mask w x (2 ^ k) v

    y_small : y < 2 ^ w
    y_small = write_mask-lt w x k (omega arith) v small

    same : (i : ℕ) → i < w → bit (y / 2 ^ n) i ≡ bit (x / 2 ^ n) i
    same i h = elim (dec_lt (n + i) w) [
      | yes within ↦
          bit-div y n i
          ∙ bit-write_mask_ne w x k (omega arith) v (n + i) within (λ e. absurd (omega arith))
          ∙ sym (bit-div x n i)
      | no past ↦
          bit-div y n i
          ∙ bit_high w y (n + i) y_small (omega arith)
          ∙ sym (bit-div x n i ∙ bit_high w x (n + i) small (omega arith))
    ]
