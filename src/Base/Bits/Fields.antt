-- ===== src/Base/Bits/Fields.antt =====
-- Bit operations on words that are made of fields: a high part times `2 ^ k`, and a low part.
use mad_os.Base.Bits.Step
use mad_os.Base.Bits.Step.{bit_and_step, bit_or_step}
use Prim.Native.Nat.{ℕ, zero, suc, ◌+◌, ◌-◌, ◌*◌, ◌/◌, ◌%◌, ◌^◌, ◌<◌, bit_and, bit_or}
use mathlib.Core.Path.{◌≡◌, ap, ◌∙◌}
use native.Mathlib.Omega.{arith}
use native.Mathlib.Nat.{pow-suc, one-le-pow}

pub shift_suc : (a k : ℕ) → a * 2 ^ suc k ≡ 2 * (a * 2 ^ k)
shift_suc a k = omega (arith, ap (λ (t : ℕ). a * t) (pow-suc 2 k))

-- The two halves of a conjunction do not meet.
pub bit_and_fields :
    (k a r b s : ℕ)
    → r < 2 ^ k
    → s < 2 ^ k
    → bit_and (a * 2 ^ k + r) (b * 2 ^ k + s) ≡ bit_and a b * 2 ^ k + bit_and r s
bit_and_fields zero a r b s hr hs =
    let e : r ≡ 0 = omega arith in
    let f : s ≡ 0 = omega arith in
    let p : a * 2 ^ 0 + 0 ≡ a = omega arith in
    let q : b * 2 ^ 0 + 0 ≡ b = omega arith in rw (e, f, p, q) (omega (arith, Step.zero-bit_and 0))
bit_and_fields (suc k) a r b s hr hs =
    let p : (a * 2 ^ suc k + r) / 2 ≡ a * 2 ^ k + r / 2 = omega (arith, shift_suc a k) in
    let q : (b * 2 ^ suc k + s) / 2 ≡ b * 2 ^ k + s / 2 = omega (arith, shift_suc b k) in
    let up : bit_and ((a * 2 ^ suc k + r) / 2) ((b * 2 ^ suc k + s) / 2)
        ≡ bit_and a b * 2 ^ k + bit_and (r / 2) (s / 2) =
      rw (p, q)
        (bit_and_fields k a (r / 2) b (s / 2) (omega (arith, pow-suc 2 k))
          (omega (arith, pow-suc 2 k))) in
    omega (
      arith,
      up,
      bit_and_step (a * 2 ^ suc k + r) (b * 2 ^ suc k + s),
      bit_and_step r s,
      shift_suc a k,
      shift_suc b k,
      shift_suc (bit_and a b) k,
    )

pub bit_or_fields :
    (k a r b s : ℕ)
    → r < 2 ^ k
    → s < 2 ^ k
    → bit_or (a * 2 ^ k + r) (b * 2 ^ k + s) ≡ bit_or a b * 2 ^ k + bit_or r s
bit_or_fields zero a r b s hr hs =
    let e : r ≡ 0 = omega arith in
    let f : s ≡ 0 = omega arith in
    let p : a * 2 ^ 0 + 0 ≡ a = omega arith in
    let q : b * 2 ^ 0 + 0 ≡ b = omega arith in rw (e, f, p, q) (omega (arith, Step.zero-bit_or 0))
bit_or_fields (suc k) a r b s hr hs =
    let p : (a * 2 ^ suc k + r) / 2 ≡ a * 2 ^ k + r / 2 = omega (arith, shift_suc a k) in
    let q : (b * 2 ^ suc k + s) / 2 ≡ b * 2 ^ k + s / 2 = omega (arith, shift_suc b k) in
    let up : bit_or ((a * 2 ^ suc k + r) / 2) ((b * 2 ^ suc k + s) / 2)
        ≡ bit_or a b * 2 ^ k + bit_or (r / 2) (s / 2) =
      rw (p, q)
        (bit_or_fields k a (r / 2) b (s / 2) (omega (arith, pow-suc 2 k))
          (omega (arith, pow-suc 2 k))) in
    omega (
      arith,
      up,
      bit_or_step (a * 2 ^ suc k + r) (b * 2 ^ suc k + s),
      bit_or_step r s,
      shift_suc a k,
      shift_suc b k,
      shift_suc (bit_or a b) k,
    )

full_mask : (k r : ℕ) → r < 2 ^ k → bit_and r (2 ^ k - 1) ≡ r
full_mask zero r h = let e : r ≡ 0 = omega arith in rw (e, Step.zero-bit_and) (omega arith)
full_mask (suc k) r h =
    let p : (2 ^ suc k - 1) / 2 ≡ 2 ^ k - 1 = omega (arith, pow-suc 2 k) in
    let up : bit_and (r / 2) ((2 ^ suc k - 1) / 2) ≡ r / 2 =
      rw p (full_mask k (r / 2) (omega (arith, pow-suc 2 k))) in
    omega (arith, up, bit_and_step r (2 ^ suc k - 1), pow-suc 2 k, one-le-pow k 2 (omega arith))

pub bit_and_comm_zero : (n a : ℕ) → a < 2 ^ n → bit_and a 0 ≡ 0
bit_and_comm_zero zero a h = let e : a ≡ 0 = omega arith in rw e (Step.zero-bit_and 0)
bit_and_comm_zero (suc n) a h =
    omega (arith, bit_and_step a 0, bit_and_comm_zero n (a / 2) (omega (arith, pow-suc 2 n)))

lt_pow_self : (a : ℕ) → a < 2 ^ a
lt_pow_self zero = omega arith
lt_pow_self (suc a) = omega (arith, lt_pow_self a, pow-suc 2 a)

pub bit_and-zero : (a : ℕ) → bit_and a 0 ≡ 0
bit_and-zero a = bit_and_comm_zero a a (lt_pow_self a)

bit_or-zero_below : (n a : ℕ) → a < 2 ^ n → bit_or a 0 ≡ a
bit_or-zero_below zero a h = let e : a ≡ 0 = omega arith in rw e (Step.zero-bit_or 0)
bit_or-zero_below (suc n) a h =
    omega (arith, bit_or_step a 0, bit_or-zero_below n (a / 2) (omega (arith, pow-suc 2 n)))

pub zero-bit_and : (a : ℕ) → bit_and 0 a ≡ 0
zero-bit_and a = Step.zero-bit_and a

pub bit_or-zero : (a : ℕ) → bit_or a 0 ≡ a
bit_or-zero a = bit_or-zero_below a a (lt_pow_self a)

pub zero-bit_or : (a : ℕ) → bit_or 0 a ≡ a
zero-bit_or a = Step.zero-bit_or a

-- A mask of `k` low ones is the remainder by `2 ^ k`.
pub bit_and_mask : (k a : ℕ) → bit_and a (2 ^ k - 1) ≡ a % 2 ^ k
bit_and_mask k a =
    let pos : 0 < 2 ^ k = one-le-pow k 2 (omega arith) in
    let split : bit_and (a / 2 ^ k * 2 ^ k + a % 2 ^ k) (0 * 2 ^ k + (2 ^ k - 1))
        ≡ bit_and (a / 2 ^ k) 0 * 2 ^ k + bit_and (a % 2 ^ k) (2 ^ k - 1) =
      bit_and_fields k (a / 2 ^ k) (a % 2 ^ k) 0 (2 ^ k - 1) (omega arith) (omega arith) in
    let whole : a / 2 ^ k * 2 ^ k + a % 2 ^ k ≡ a = grind arith in
    let mask : 0 * 2 ^ k + (2 ^ k - 1) ≡ 2 ^ k - 1 = omega arith in
    let e : bit_and (a / 2 ^ k * 2 ^ k + a % 2 ^ k) (0 * 2 ^ k + (2 ^ k - 1)) ≡ a % 2 ^ k =
      split ∙ rw (bit_and-zero, full_mask k (a % 2 ^ k) (omega arith)) (omega arith) in
    rw (whole, mask) at e

-- A disjunction of fields that do not overlap is their sum.
pub bit_or_low : (k q r : ℕ) → r < 2 ^ k → bit_or (q * 2 ^ k) r ≡ q * 2 ^ k + r
bit_or_low k q r h =
    let split : bit_or (q * 2 ^ k + 0) (0 * 2 ^ k + r) ≡ bit_or q 0 * 2 ^ k + bit_or 0 r =
      bit_or_fields k q 0 0 r (one-le-pow k 2 (omega arith)) h in
    let p : q * 2 ^ k + 0 ≡ q * 2 ^ k = omega arith in
    let s : 0 * 2 ^ k + r ≡ r = omega arith in
    let e : bit_or (q * 2 ^ k + 0) (0 * 2 ^ k + r) ≡ q * 2 ^ k + r =
      split ∙ rw (bit_or-zero, Step.zero-bit_or) (omega arith) in
    rw (p, s) at e
