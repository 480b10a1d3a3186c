-- ===== src/Strings/Print.antt =====
-- `to_string` writes the decimal digits of a number, and `atoi` reads them back.
use mad_os.Strings.{digits_loop, reverse_loop, xor_swap}
use mad_os.Strings.Swap.{xor_swap_lem}
use mad_os.Base.{
  ℕ, zero, suc, ◌+◌, ◌-◌, ◌*◌, ◌/◌, ◌%◌, ◌^◌, ◌≤◌, ◌<◌, ◌≡◌, ◌≢◌, ◌⊎◌, inl, inr, refl, sym, ◌∙◌, ap,
  false, ◌==◌, arith,
}
use native.Mathlib.Decide.{ℕ_discrete}
use native.Mathlib.Nat.{pow-suc, pow-succ', div-div-eq-div-mul}
use mad_os.Base.Run.{done}
use mad_os.Memory.{Memory, store8}

-- The digits of `n`, the lowest first, stand in `k` bytes from `b` on, and nothing else has changed.
pub record Digits (b n k : ℕ) (m k' : Memory) : Type 0 where
  pub digit : (j : ℕ) → j < k → k' (b + j) ≡ n / 10 ^ j % 10 + 48
  pub all : n < 10 ^ k
  pub leading : ((n ≡ 0) × (k ≡ 0)) ⊎ (10 ^ k ≤ n * 10)
  pub frame : (x : ℕ) → (x < b) ⊎ (b + k ≤ x) → k' x ≡ m x

Digits-more :
    (b n k : ℕ) (m k' : Memory)
    → 0 < n
    → Digits (b + 1) (n / 10) k (store8 m b (n % 10 + 48)) k'
    → Digits b n (suc k) m k'
unfolding store8
Digits-more b n k m k' pos d = record {
  digit = digit;
  all = omega (arith, d.all, pow-suc 10 k);
  leading = inr (first d.leading);
  frame = λ x out. d.frame x (wider x out) ∙ ground (arith, out);
}
  where
    wider : (x : ℕ) → (x < b) ⊎ (b + suc k ≤ x) → (x < b + 1) ⊎ (b + 1 + k ≤ x)
    wider x (inl h) = inl (omega arith)
    wider x (inr h) = inr (omega arith)

    first : ((n / 10 ≡ 0) × (k ≡ 0)) ⊎ (10 ^ k ≤ n / 10 * 10) → 10 ^ suc k ≤ n * 10
    first (inl (_, none_left)) = rw none_left (omega arith)
    first (inr more) = omega (arith, more, pow-suc 10 k)

    digit : (j : ℕ) → j < suc k → k' (b + j) ≡ n / 10 ^ j % 10 + 48
    digit zero h =
        let e : b + 0 ≡ b = omega arith in
        let e' : n / 10 ^ 0 ≡ n = omega arith in
        rw (e, e') (d.frame b (inl (omega arith)) ∙ ground arith)
    digit (suc j) h =
        let e : b + suc j ≡ b + 1 + j = omega arith in
        let e' : n / 10 ^ suc j ≡ n / 10 / 10 ^ j =
          ap (λ p. n / p) (pow-succ' 10 j) ∙ sym (div-div-eq-div-mul n 10 (10 ^ j)) in
        rw (e, e') (d.digit j (omega arith))

digits_loop-zero :
    (fuel : ℕ) (m : Memory) (buffer i : ℕ) → digits_loop fuel m buffer i 0 ≡ done (m, i)
unfolding digits_loop
digits_loop-zero zero m buffer i = refl
digits_loop-zero (suc fuel) m buffer i = refl

pub digits_loop-Digits :
    (fuel : ℕ) (m : Memory) (buffer i n : ℕ)
    → n ≤ fuel
    → (k : ℕ) × (m' : Memory) × (digits_loop fuel m buffer i n ≡ done (m', i + k))
      × Digits (buffer + i) n k m m'
unfolding digits_loop
digits_loop-Digits fuel m buffer i zero h = (
  zero,
  m,
  digits_loop-zero fuel m buffer i ∙ ap (λ c. done (m, c)) (omega arith),
  record {
    digit = λ j lt. absurd (omega arith);
    all = omega arith;
    leading = inl (refl, refl);
    frame = λ x out. refl;
  },
)
digits_loop-Digits zero m buffer i (suc n) h = absurd (omega arith)
digits_loop-Digits (suc fuel) m buffer i (suc n) h =
    let m1 = store8 m (buffer + i) (suc n % 10 + 48) in
    let (k, m', run, d) = digits_loop-Digits fuel m1 buffer (i + 1) (suc n / 10) (omega arith) in
    let place : buffer + (i + 1) ≡ buffer + i + 1 = omega arith in
    let count : i + 1 + k ≡ i + suc k = omega arith in
    let nonzero : (suc n == 0) ≡ false = ground arith in
    (
      suc k,
      m',
      rw (nonzero, digits_loop) (run ∙ ap (λ c. done (m', c)) count),
      Digits-more (buffer + i) (suc n) k m m' (omega arith) (rw place at d),
    )

-- One round of the reversal.
module _ (m : Memory) (b i t : ℕ) (h : t < i / 2) (small : (j : ℕ) → j < i → m (b + j) < 64) where
  abbrev swapped : Memory
  swapped = xor_swap m (b + t) (b + (i - t - 1))

  ends :
      (swapped (b + t) ≡ m (b + (i - t - 1)))
      × (swapped (b + (i - t - 1)) ≡ m (b + t))
      × ((x : ℕ) → x ≢ b + t → x ≢ b + (i - t - 1) → swapped x ≡ m x)
  ends =
      xor_swap_lem m (b + t) (b + (i - t - 1)) (λ p. omega arith) (small t (omega arith))
        (small (i - t - 1) (omega arith))

  swapped-inner : (j : ℕ) → j < i → j ≢ t → j ≢ i - t - 1 → swapped (b + j) ≡ m (b + j)
  swapped-inner j hj ne ne' = ends.2 (b + j) (λ p. ne (omega arith)) (λ p. ne' (omega arith))

  swapped-small : (j : ℕ) → j < i → swapped (b + j) < 64
  swapped-small j hj = elim (ℕ_discrete j t) [
    | yes e ↦ rw (e, ends.0) (small (i - t - 1) (omega arith))
    | no ne ↦ elim (ℕ_discrete j (i - t - 1)) [
      | yes e ↦ rw (e, ends.1) (small t (omega arith))
      | no ne' ↦ rw (swapped-inner j hj ne ne') (small j hj)
    ]
  ]

-- The bytes of a buffer are exchanged end for end; `t` of them at both ends are done.
pub reverse_loop_lem :
    (left : ℕ) (m : Memory) (b i t : ℕ)
    → t + left ≡ i / 2
    → ((j : ℕ) → j < i → m (b + j) < 64)
    → ((j : ℕ) → t ≤ j → j + t < i → reverse_loop left m b i t (b + j) ≡ m (b + (i - 1 - j)))
      × ((x : ℕ) → (x < b + t) ⊎ (b + i ≤ x + t) → reverse_loop left m b i t x ≡ m x)
unfolding reverse_loop
reverse_loop_lem zero m b i t e small =
    ((λ j lo hi. ap (λ k. m (b + k)) (omega arith)), (λ x out. refl))
reverse_loop_lem (suc left) m b i t e small =
    let h : t < i / 2 = omega arith in
    let (inner, outer) =
      reverse_loop_lem left (swapped m b i t h small) b i (t + 1) (omega arith)
        (swapped-small m b i t h small) in
    let (low, high, rest) = ends m b i t h small in
    (
      (λ j lo hi. elim (ℕ_discrete j t) [
        | yes p ↦
            let q : i - 1 - t ≡ i - t - 1 = omega arith in
            rw (p, q) (outer (b + t) (inl (omega arith)) ∙ low)
        | no ne ↦ elim (ℕ_discrete j (i - t - 1)) [
          | yes p ↦
              let q : i - 1 - (i - t - 1) ≡ t = omega arith in
              rw (p, q) (outer (b + (i - t - 1)) (inr (omega arith)) ∙ high)
          | no ne' ↦
              inner j (omega arith) (omega arith)
              ∙ swapped-inner m b i t h small (i - 1 - j) (omega arith) (λ p. ne' (omega arith))
                  (λ p. ne (omega arith))
        ]
      ]),
      (λ x out.
          outer x (wider x t (b + i) out)
          ∙ rest x (λ p. apart x b t i (omega arith) out (inl p))
              (λ p. apart x b t i (omega arith) out (inr p))),
    )
  where
    wider : (x t n : ℕ) → (x < b + t) ⊎ (n ≤ x + t) → (x < b + (t + 1)) ⊎ (n ≤ x + (t + 1))
    wider x t n (inl p) = inl (omega arith)
    wider x t n (inr p) = inr (omega arith)

    apart :
        (x b t i : ℕ)
        → t < i / 2
        → (x < b + t) ⊎ (b + i ≤ x + t)
        → (x ≡ b + t) ⊎ (x ≡ b + (i - t - 1))
        → ⊥
    apart x b t i h (inl p) (inl q) = omega arith
    apart x b t i h (inl p) (inr q) = omega arith
    apart x b t i h (inr p) (inl q) = omega arith
    apart x b t i h (inr p) (inr q) = omega arith
