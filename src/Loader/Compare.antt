-- ===== src/Loader/Compare.antt =====
-- `memcmp` and `strcmp` of the boot loader.
use mad_os.Base.{
  ℕ, zero, suc, ◌+◌, ◌-◌, ◌^◌, ◌≤◌, ◌<◌, ◌≡◌, ◌↔◌, inl, inr, refl, ltb, ◌==◌, if◌then◌else◌,
  Bool-cases, arith,
}
use native.Mathlib.Decide.{ℕ_discrete}
use mad_os.Memory.{Memory}

-- The `int` -1.
abbrev pub minus_one : ℕ
minus_one = 2 ^ 32 - 1

-- The loop of `memcmp`, with the rounds left.
unfoldable pub memcmp_loop : ℕ → Memory → (a b i : ℕ) → ℕ
memcmp_loop zero m a b i = 0
memcmp_loop (suc left) m a b i =
    let rest = memcmp_loop left m a b (i + 1) in
    if ltb (m (a + i)) (m (b + i))
    then minus_one
    else if ltb (m (b + i)) (m (a + i))
    then 1
    else rest

unfoldable pub memcmp : Memory → (a b n : ℕ) → ℕ
unfolding memcmp_loop
memcmp m a b n = memcmp_loop n m a b 0

-- The loop of `strcmp`: neither pointer moves.
unfoldable pub strcmp_loop : ℕ → Memory → (a b : ℕ) → ℕ
strcmp_loop zero m a b = 1
strcmp_loop (suc left) m a b = let rest = strcmp_loop left m a b in if m a == m b then rest else 0

unfoldable pub strcmp : Memory → (a b length : ℕ) → ℕ
unfolding strcmp_loop
strcmp m a b length = strcmp_loop length m a b

-- How two runs of bytes compare: they agree, or they differ first at `k`.
pub data Compares (m : Memory) (a b lo hi result : ℕ) : Type 0 where
  same :
      ((i : ℕ) → lo ≤ i → i < hi → m (a + i) ≡ m (b + i)) → result ≡ 0 → Compares m a b lo hi result
  below :
      (k : ℕ)
      → k < hi
      → ((i : ℕ) → lo ≤ i → i < k → m (a + i) ≡ m (b + i))
      → m (a + k) < m (b + k)
      → result ≡ minus_one
      → Compares m a b lo hi result
  above :
      (k : ℕ)
      → k < hi
      → ((i : ℕ) → lo ≤ i → i < k → m (a + i) ≡ m (b + i))
      → m (b + k) < m (a + k)
      → result ≡ 1
      → Compares m a b lo hi result

module _ (m : Memory) (a b : ℕ) where
  earlier :
      (lo k : ℕ)
      → m (a + lo) ≡ m (b + lo)
      → ((i : ℕ) → lo + 1 ≤ i → i < k → m (a + i) ≡ m (b + i))
      → (i : ℕ) → lo ≤ i
      → i < k
      → m (a + i) ≡ m (b + i)
  earlier lo k here rest i from to = elim (ℕ_discrete lo i) [
    | yes e ↦ rw (← e) here
    | no ne ↦ rest i (omega arith) to
  ]

  step :
      (lo hi r : ℕ)
      → m (a + lo) ≡ m (b + lo)
      → Compares m a b (lo + 1) hi r
      → Compares m a b lo hi r
  step lo hi r here (same s e) = same (earlier lo hi here s) e
  step lo hi r here (below k lt s d e) = below k lt (earlier lo k here s) d e
  step lo hi r here (above k lt s d e) = above k lt (earlier lo k here s) d e

  memcmp_loop-Compares :
      (left lo hi : ℕ) → lo + left ≡ hi → Compares m a b lo hi (memcmp_loop left m a b lo)
  unfolding memcmp_loop
  memcmp_loop-Compares zero lo hi e = same (λ i from to. absurd (omega arith)) refl
  memcmp_loop-Compares (suc left) lo hi e = elim (Bool-cases (ltb (m (a + lo)) (m (b + lo)))) [
    | inl l ↦ rw l (below lo (omega arith) (λ i from to. absurd (omega arith)) (ground arith) refl)
    | inr nl ↦ elim (Bool-cases (ltb (m (b + lo)) (m (a + lo)))) [
      | inl g ↦
          rw (nl, g)
            (above lo (omega arith) (λ i from to. absurd (omega arith)) (ground arith) refl)
      | inr ng ↦
          rw (nl, ng)
            (step lo hi (memcmp_loop left m a b (lo + 1)) (ground arith)
              (memcmp_loop-Compares left (lo + 1) hi (omega arith)))
    ]
  ]

  -- `memcmp` of `n` bytes gives 0 if they all agree; otherwise there is a first place where they
  -- differ, and it gives -1 if the first run has the lower byte there, 1 if it has the higher.
  pub memcmp-Compares : (n : ℕ) → Compares m a b 0 n (memcmp m a b n)
  unfolding memcmp
  memcmp-Compares n = memcmp_loop-Compares n 0 n (omega arith)

  -- `strcmp` of one or more bytes looks at the first byte alone: it gives 1 exactly when the first
  -- bytes agree, whatever follows.
  pub strcmp-first : (length : ℕ) → 0 < length → (strcmp m a b length ≡ 1) ↔ (m a ≡ m b)
  unfolding strcmp
  strcmp-first length more = (looks length more, agrees length)
    where
      looks : (k : ℕ) → 0 < k → strcmp_loop k m a b ≡ 1 → m a ≡ m b
      looks zero h e = absurd (omega arith)
      looks (suc k) h e = ground arith

      agrees : (k : ℕ) → m a ≡ m b → strcmp_loop k m a b ≡ 1
      agrees zero e = refl
      agrees (suc k) e = ground (arith, agrees k)
