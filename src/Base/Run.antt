-- ===== src/Base/Run.antt =====
-- What running a piece of C++ comes to: a result, a fault (a trap of the processor, or undefined
-- behaviour), or a loop that used up the fuel it was given.

pub data Run {ℓ} (R : Type ℓ) : Type ℓ where
  done : (result : R) → Run R
  fault : Run R
  out_of_fuel : Run R

-- What follows a piece runs only if the piece gave its result.
infixl 5 ◌>>=◌
abbrev pub ◌>>=◌ {ℓ κ} : {R : Type ℓ} {S : Type κ} (first : Run R) (next : R → Run S) → Run S
fault >>= next = fault
out_of_fuel >>= next = out_of_fuel
done result >>= next = next result
