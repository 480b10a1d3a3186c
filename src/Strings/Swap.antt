-- ===== src/Strings/Swap.antt =====
-- Three exclusive ors swap two bytes.
use mad_os.Strings.{xor_swap}
use mad_os.Base.{ℕ, zero, suc, ◌<◌, ◌≡◌, ◌≢◌, refl, Bool, true, ◌&&◌, ◌==◌, arith, bit_xor}
use native.Mathlib.Decide.{ℕ_discrete}
use mad_os.Memory.{Memory, store8}

-- `p` holds below `n`.
unfoldable pub all_below : ℕ → (ℕ → Bool) → Bool
all_below zero p = true
all_below (suc n) p = let rest = all_below n p in p n && rest

pub all_below-at : (n : ℕ) (p : ℕ → Bool) (x : ℕ) → all_below n p ≡ true → x < n → p x ≡ true
unfolding all_below
all_below-at zero p x h lt = absurd (omega arith)
all_below-at (suc n) p x h lt = elim (ℕ_discrete n x) [
  | yes e ↦ rw (← e) (ground arith)
  | no ne ↦ all_below-at n p x (ground arith) (omega arith)
]

abbrev round_trip : ℕ → ℕ → Bool
round_trip a b =
    (bit_xor b (bit_xor a b) == a) && (bit_xor (bit_xor a b) (bit_xor b (bit_xor a b)) == b)

xor_table : all_below 64 (λ a. all_below 64 (λ b. round_trip a b)) ≡ true
unfolding all_below
xor_table = refl

xor_round_trip :
    (a b : ℕ)
    → a < 64
    → b < 64
    → (bit_xor b (bit_xor a b) ≡ a) × (bit_xor (bit_xor a b) (bit_xor b (bit_xor a b)) ≡ b)
xor_round_trip a b ha hb =
    let row = all_below-at 64 (λ a. all_below 64 (λ b. round_trip a b)) a xor_table ha in
    let h : round_trip a b ≡ true = all_below-at 64 (λ b. round_trip a b) b row hb in ground arith

-- Two bytes below 64 at different addresses are swapped; the rest stays.
pub xor_swap_lem :
    (m : Memory) (a b : ℕ)
    → a ≢ b
    → m a < 64
    → m b < 64
    → (xor_swap m a b a ≡ m b)
      × (xor_swap m a b b ≡ m a)
      × ((x : ℕ) → x ≢ a → x ≢ b → xor_swap m a b x ≡ m x)
unfolding xor_swap store8
xor_swap_lem m a b ne ha hb = (
  ground (arith, xor_round_trip (m a) (m b) ha hb),
  ground (arith, xor_round_trip (m a) (m b) ha hb),
  λ x h k. ground arith,
)
