-- ===== src/Strings/Compare.antt =====
-- `strcmp` compares a given number of bytes.
use mad_os.Strings.{compare_loop, strcmp}
use mad_os.Base.{ℕ, zero, suc, ◌+◌, ◌≤◌, ◌<◌, ◌≡◌, ◌↔◌, refl, true, arith}
use native.Mathlib.Decide.{ℕ_discrete}
use mad_os.Memory.{Memory}

-- The bytes from `i` on, `left` of them, agree.
abbrev pub Agree : Memory → (str val i left : ℕ) → Type 0
Agree m str val i left = (j : ℕ) → i ≤ j → j < i + left → m (str + j) ≡ m (val + j)

compare_loop-Agree :
    (left : ℕ) (m : Memory) (str val i : ℕ)
    → (compare_loop left m str val i ≡ true) ↔ Agree m str val i left
unfolding compare_loop
compare_loop-Agree zero m str val i = (λ _ j lo hi. absurd (omega arith), λ _. refl)
compare_loop-Agree (suc left) m str val i = (
  (λ h j lo hi. elim (ℕ_discrete i j) [
    | yes e ↦ let here : m (str + i) ≡ m (val + i) = ground arith in rw (← e) here
    | no ne ↦
        (compare_loop-Agree left m str val (i + 1)).0 (ground arith) j (omega arith) (omega arith)
  ]),
  (λ agree. ground (
    arith,
    agree i (omega arith) (omega arith),
    (compare_loop-Agree left m str val (i + 1)).1 (λ j lo hi. agree j (omega arith) (omega arith)),
  )),
)

-- `strcmp` is true exactly if the first `n` bytes of the two strings agree.
pub strcmp-Agree : (m : Memory) (str val n : ℕ) → (strcmp m str val n ≡ true) ↔ Agree m str val 0 n
unfolding strcmp
strcmp-Agree m str val n = compare_loop-Agree n m str val 0
