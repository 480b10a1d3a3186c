-- ===== src/Strings/RoundTrip.antt =====
-- What `to_string` writes for a number, and that `atoi` reads it back.
use mad_os.Strings.{digits_loop, reverse_loop, to_string, atoi}
use mad_os.Strings.Decimal.{value, atoi-value}
use mad_os.Strings.Print.{Digits, digits_loop-Digits, reverse_loop_lem}
use mad_os.Base.{
  ℕ, zero, suc, ◌+◌, ◌-◌, ◌*◌, ◌/◌, ◌%◌, ◌^◌, ◌≤◌, ◌<◌, ◌≡◌, ◌≢◌, ◌⊎◌, inl, inr, refl, sym, ◌∙◌, ap,
  false, ◌==◌, leb, u32, arith, Bool-cases,
}
use native.Mathlib.Decide.{ℕ_discrete}
use native.Mathlib.Nat.{pow-suc, div-div-eq-div-mul, div-eq_of_lt}
use mad_os.Base.Run.{done, ◌>>=◌}
use mad_os.Memory.{Memory, store8}

-- The decimal digits of `n`, the highest first and with no zero in front, stand from `b` on, `k` of them, with a zero
-- behind; nothing else has changed.
pub record Decimal (b n k : ℕ) (m m' : Memory) : Type 0 where
  pub digit : (j : ℕ) → j < k → m' (b + j) ≡ n / 10 ^ (k - 1 - j) % 10 + 48
  pub terminator : m' (b + k) ≡ 0
  pub all : n < 10 ^ k
  pub some : 0 < k
  pub least : (k ≡ 1) ⊎ (10 ^ k ≤ n * 10)
  pub frame : (x : ℕ) → (x < b) ⊎ (b + k < x) → m' x ≡ m x

-- The reversal and the terminator.
module _ (b n k : ℕ) (m m1 : Memory) (d : Digits b n k m m1) (pos : 0 < n) where
  abbrev ended : Memory
  ended = store8 m1 (b + k) 0

  ended-in : (j : ℕ) → j < k → ended (b + j) ≡ n / 10 ^ j % 10 + 48
  unfolding store8
  ended-in j h = ground (arith, d.digit j h)

  ended-out : (x : ℕ) → (x < b) ⊎ (b + k < x) → ended x ≡ m x
  unfolding store8
  ended-out x out = ground (arith, out, d.frame x)

  ended-end : ended (b + k) ≡ 0
  unfolding store8
  ended-end = ground arith

  ended-small : (j : ℕ) → j < k → ended (b + j) < 64
  ended-small j h = omega (arith, ended-in j h)

  reversed-Decimal : Decimal b n k m (reverse_loop (k / 2) ended b k 0)
  reversed-Decimal =
      let (inner, outer) = reverse_loop_lem (k / 2) ended b k 0 (omega arith) ended-small in
      record {
        digit = λ j h. inner j (omega arith) (omega arith) ∙ ended-in (k - 1 - j) (omega arith);
        terminator = outer (b + k) (inr (omega arith)) ∙ ended-end;
        all = d.all;
        some = has_some d.leading;
        least = least d.leading;
        frame = λ x out. outer x (beside x out) ∙ ended-out x out;
      }
    where
      least : ((n ≡ 0) × (k ≡ 0)) ⊎ (10 ^ k ≤ n * 10) → (k ≡ 1) ⊎ (10 ^ k ≤ n * 10)
      least (inl (e, _)) = absurd (omega arith)
      least (inr h) = inr h

      has_some : ((n ≡ 0) × (k ≡ 0)) ⊎ (10 ^ k ≤ n * 10) → 0 < k
      has_some h = elim (ℕ_discrete k 0) [
        | yes e ↦ absurd (let all : n < 10 ^ 0 = rw e at d.all in omega arith)
        | no ne ↦ omega arith
      ]

      beside : (x : ℕ) → (x < b) ⊎ (b + k < x) → (x < b + 0) ⊎ (b + k ≤ x + 0)
      beside x (inl h) = inl (omega arith)
      beside x (inr h) = inr (omega arith)

zero-Decimal :
    (b : ℕ) (m k : Memory)
    → ((x : ℕ) → x ≢ b → k x ≡ m x)
    → Decimal b 0 1 m (store8 (store8 k b 48) (b + 1) 0)
unfolding store8
zero-Decimal b m k same = record {
  digit = λ j h. ground arith;
  terminator = ground arith;
  all = omega arith;
  some = omega arith;
  least = inl refl;
  frame = λ x out. ground (arith, same x, out);
}

to_string_zero :
    (m : Memory) (b : ℕ) → (m' : Memory) × (to_string m b 0 ≡ done m') × Decimal b 0 1 m m'
unfolding to_string digits_loop reverse_loop store8
to_string_zero m b = (
  store8 (store8 (store8 m (b + 0) 0) b 48) (b + 1) 0,
  refl,
  zero-Decimal b m (store8 m (b + 0) 0) (λ x ne. ground arith),
)

-- For a number below `2 ^ 32`, `to_string` ends and leaves its decimal digits in the buffer, the highest
-- first, with no zero in front unless the number is 0, and a zero byte behind; it writes nothing else.
pub to_string-Decimal :
    (m : Memory) (b n : ℕ)
    → n < 2 ^ 32
    → (k : ℕ) × (m' : Memory) × (to_string m b n ≡ done m') × Decimal b n k m m'
unfolding to_string
to_string-Decimal m b n h =
    let (k, m1, run, d) = digits_loop-Digits n m b 0 n (omega arith) in
    let e : b + 0 ≡ b = omega arith in
    let e' : 0 + k ≡ k = omega arith in
    let run' : digits_loop n m b 0 n ≡ done (m1, k) = rw e' at run in
    let d' : Digits b n k m m1 = rw e at d in
    let pos : leb (2 ^ 63) n ≡ false = ground arith in
    let small : u32 n ≡ n = omega arith in
    let ok : (n == 2 ^ 63) ≡ false = ground arith in
    elim (ℕ_discrete n 0) [
      | yes z ↦ let (m', run, decimal) = to_string_zero m b in rw z (1, m', run, decimal)
      | no nz ↦
          let nonzero : (n == 0) ≡ false = ground arith in
          (
            k,
            reverse_loop (k / 2) (ended b n k m m1 d' (omega arith)) b k 0,
            rw (pos, small, ok, run', nonzero),
            reversed-Decimal b n k m m1 d' (omega arith),
          )
    ]

value-Decimal :
    (j : ℕ) (b n k : ℕ) (m m' : Memory)
    → Decimal b n k m m'
    → j ≤ k
    → value m' b j ≡ n / 10 ^ (k - j)
unfolding value
value-Decimal zero b n k m m' d h =
    let e : k - 0 ≡ k = omega arith in rw e (sym (div-eq_of_lt d.all))
value-Decimal (suc j) b n k m m' d h =
    let e : k - j ≡ suc (k - 1 - j) = omega arith in
    let e' : k - suc j ≡ k - 1 - j = omega arith in
    let tens : n / 10 ^ suc (k - 1 - j) ≡ n / 10 ^ (k - 1 - j) / 10 =
      ap (λ p. n / p) (pow-suc 10 (k - 1 - j)) ∙ sym (div-div-eq-div-mul n (10 ^ (k - 1 - j)) 10) in
    let so_far : value m' b j ≡ n / 10 ^ (k - 1 - j) / 10 =
      rw (e, tens) at (value-Decimal j b n k m m' d (omega arith)) in
    rw (e', so_far, d.digit j (omega arith)) (omega arith)

many_digits : (r : ℕ) → 10 ^ 11 ≤ 10 ^ (11 + r)
many_digits zero = omega arith
many_digits (suc r) =
    let e : 11 + suc r ≡ suc (11 + r) = omega arith in
    rw e (omega (arith, many_digits r, pow-suc 10 (11 + r)))

-- A number below `2 ^ 32` has at most ten digits: with a sign and a terminator they fit in 12 bytes.
pub few_digits : (b n k : ℕ) (m m' : Memory) → Decimal b n k m m' → n < 2 ^ 32 → k ≤ 10
few_digits b n k m m' d h = elim (Bool-cases (leb k 10)) [
  | inl small ↦ ground arith
  | inr large ↦
      let e : 11 + (k - 11) ≡ k = ground arith in
      let much : 10 ^ 11 ≤ 10 ^ k = rw e at (many_digits (k - 11)) in ground (arith, d.least, much)
]

atoi-Decimal :
    (b n k fuel : ℕ) (m m' : Memory)
    → Decimal b n k m m'
    → n < 2 ^ 31
    → 11 ≤ fuel
    → atoi fuel m' b ≡ done n
atoi-Decimal b n k fuel m m' d h enough =
    let none_left : k - k ≡ 0 = omega arith in
    let whole : value m' b k ≡ n =
      rw none_left at (value-Decimal k b n k m m' d (omega arith)) ∙ omega arith in
    atoi-value fuel m' b k (omega (arith, few_digits b n k m m' d (omega arith)))
      (λ j lt. ground (arith, d.digit j lt)) (ground (arith, d.terminator)) (omega (arith, whole))
    ∙ ap done whole

-- What `to_string` prints of a number below `2 ^ 31`, `atoi` reads back, if it may read 11 bytes.
pub atoi-to_string :
    (m : Memory) (b n fuel : ℕ)
    → n < 2 ^ 31
    → 11 ≤ fuel
    → (to_string m b n >>= λ m'. atoi fuel m' b) ≡ done n
atoi-to_string m b n fuel h enough =
    let (k, m', run, d) = to_string-Decimal m b n (omega arith) in
    rw run (atoi-Decimal b n k fuel m m' d h enough)
