-- ===== src/Tests/MemSet.antt =====
-- `memset` at lengths on each of its ways.
use mad_os.Base.{ℕ, ◌+◌, ◌≡◌, refl, ◌∷◌, [], List, arith}
use mad_os.Base.Run.{Run, done, fault, out_of_fuel}
use mad_os.Memory.{Memory, fill}
use mad_os.MemSet.{memset}
use mad_os.MemSet.Correct.{memset-fill}

abbrev sevens : Memory
sevens x = 7

-- The bytes in front of the buffer, at both its ends and behind it.
probe : Run Memory → ℕ → ℕ → List ℕ
probe (done m) s n = m (s + 0) ∷ m (s + 1) ∷ m (s + n) ∷ m (s + n + 1) ∷ []
probe fault s n = []
probe out_of_fuel s n = []

memset_small : probe (memset sevens 101 9 13) 100 13 ≡ 7 ∷ 9 ∷ 9 ∷ 7 ∷ []
unfolding probe memset mad_os.Memory.store mad_os.Memory.store8 mad_os.Memory.fill
memset_small = refl

memset_middle : probe (memset sevens 101 9 100) 100 100 ≡ 7 ∷ 9 ∷ 9 ∷ 7 ∷ []
unfolding probe memset mad_os.Memory.store mad_os.Memory.store8 mad_os.Memory.fill
memset_middle = refl

memset_huge : probe (memset sevens 101 9 500) 100 500 ≡ 7 ∷ 9 ∷ 9 ∷ 7 ∷ []
unfolding probe memset mad_os.Memory.store mad_os.Memory.store8 mad_os.Memory.fill
memset_huge = refl

memset-fill_example : memset sevens 101 9 500 ≡ done (fill sevens 101 500 9)
memset-fill_example = memset-fill sevens 101 9 500 (omega arith)
