-- ===== src/Strings/Decimal.antt =====
-- `atoi` reads a decimal number.
use mad_os.Strings.{is_digit, atoi_loop, atoi}
use mad_os.Base.{ℕ, zero, suc, ◌+◌, ◌-◌, ◌*◌, ◌^◌, ◌≤◌, ◌<◌, ◌≡◌, ap, true, false, ◌==◌, ltb, arith}
use mad_os.Base.Run.{done}
use mad_os.Memory.{Memory}

-- The number that the first `n` letters at `a` write.
unfoldable pub value : Memory → (a n : ℕ) → ℕ
value m a zero = 0
value m a (suc n) = value m a n * 10 + (m (a + n) - 48)

value_mono : (k : ℕ) (m : Memory) (a i : ℕ) → value m a i ≤ value m a (i + k)
unfolding value
value_mono zero m a i = let e : i + 0 ≡ i = omega arith in rw e (omega arith)
value_mono (suc k) m a i =
    let e : i + suc k ≡ suc (i + k) = omega arith in
    rw (e, value) (omega (arith, value_mono k m a i))

atoi_loop-value :
    (k fuel : ℕ) (m : Memory) (a i : ℕ)
    → k < fuel
    → ((j : ℕ) → i ≤ j → j < i + k → is_digit (m (a + j)) ≡ true)
    → is_digit (m (a + (i + k))) ≡ false
    → value m a (i + k) < 2 ^ 31
    → atoi_loop fuel m (a + i) (value m a i) ≡ done (value m a (i + k))
unfolding atoi_loop value
atoi_loop-value k zero m a i h digits stop small = absurd (omega arith)
atoi_loop-value zero (suc fuel) m a i h digits stop small =
    let e : i + 0 ≡ i = omega arith in
    let stop' : is_digit (m (a + i)) ≡ false = rw e at stop in
    let small' : value m a i < 2 ^ 31 = rw e at small in
    let whole : (value m a i == 2 ^ 31) ≡ false = ground arith in rw (e, stop', atoi_loop, whole)
atoi_loop-value (suc k) (suc fuel) m a i h digits stop small =
    let e : i + suc k ≡ i + 1 + k = omega arith in
    let here : is_digit (m (a + i)) ≡ true = digits i (omega arith) (omega arith) in
    let next : value m a i * 10 + (m (a + i) - 48) ≡ value m a (i + 1) =
      let e' : i + 1 ≡ suc i = omega arith in rw (e', value) in
    let bound : ltb (2 ^ 31) (value m a i * 10 + (m (a + i) - 48)) ≡ false =
      rw next (ground (arith, value_mono k m a (i + 1), ap (λ x. value m a x) e)) in
    let place : a + i + 1 ≡ a + (i + 1) = omega arith in
    rw (here, atoi_loop, bound, next, place, e)
      (atoi_loop-value k fuel m a (i + 1) (omega arith)
        (λ j lo hi. digits j (omega arith) (omega arith)) (rw e at stop) (rw e at small))

-- If the first `n` letters are digits, the next one is none, and the number that they write is below
-- `2 ^ 31`, then `atoi` reads no further than that letter and returns the number.
pub atoi-value :
    (fuel : ℕ) (m : Memory) (a n : ℕ)
    → n < fuel
    → ((j : ℕ) → j < n → is_digit (m (a + j)) ≡ true)
    → is_digit (m (a + n)) ≡ false
    → value m a n < 2 ^ 31
    → atoi fuel m a ≡ done (value m a n)
unfolding atoi value
atoi-value fuel m a n h digits stop small =
    let e : a + 0 ≡ a = omega arith in
    let e' : 0 + n ≡ n = omega arith in
    rw (e, e') at
      (atoi_loop-value n fuel m a 0 h (λ j lo hi. digits j (omega arith)) (rw e' stop)
        (rw e' small))
