-- ===== src/Tests/Strings.antt =====
-- Strings in a memory that holds "109;" at 0x10 and "10" at 0x20.
use mad_os.Base.{
  ℕ, ◌+◌, ◌^◌, ◌<◌, ◌≡◌, refl, true, List, [], ◌∷◌, get_or, arith, leb, ltb, ◌&&◌, if◌then◌else◌,
  ◌-◌, suc, zero,
}
use mad_os.Base.Run.{Run, done, ◌>>=◌}
use mad_os.Memory.{Memory}
use mad_os.Strings.{strcmp, atoi, to_string, is_digit}
use mad_os.Strings.Decimal.{value}
use mad_os.Strings.RoundTrip.{Decimal, to_string-Decimal, atoi-to_string}

abbrev memory : Memory
memory x =
    if leb 0x10 x && ltb x 0x14
    then get_or (49 ∷ 48 ∷ 57 ∷ 59 ∷ []) (x - 0x10) 0
    else if leb 0x20 x && ltb x 0x22
    then get_or (49 ∷ 48 ∷ []) (x - 0x20) 0
    else 0

-- The five bytes at 0x100 after a number was printed there.
abbrev printed : Run Memory → Run (List ℕ)
printed r = r >>= λ m. done (m 0x100 ∷ m 0x101 ∷ m 0x102 ∷ m 0x103 ∷ m 0x104 ∷ [])

print_zero : printed (to_string memory 0x100 0) ≡ done (48 ∷ 0 ∷ 0 ∷ 0 ∷ 0 ∷ [])
unfolding to_string mad_os.Memory.store8 mad_os.Strings.digits_loop mad_os.Strings.reverse_loop
    mad_os.Strings.xor_swap
print_zero = refl

print_negative : printed (to_string memory 0x100 (2 ^ 64 - 705)) ≡ done (45 ∷ 55 ∷ 48 ∷ 53 ∷ 0 ∷ [])
unfolding to_string mad_os.Memory.store8 mad_os.Strings.digits_loop mad_os.Strings.reverse_loop
    mad_os.Strings.xor_swap
print_negative = refl

-- The magnitude is cut to 32 bits.
print_large : printed (to_string memory 0x100 (2 ^ 32 + 7)) ≡ done (55 ∷ 0 ∷ 0 ∷ 0 ∷ 0 ∷ [])
unfolding to_string mad_os.Memory.store8 mad_os.Strings.digits_loop mad_os.Strings.reverse_loop
    mad_os.Strings.xor_swap
print_large = refl

digits_109 : (j : ℕ) → j < 3 → is_digit (memory (0x10 + j)) ≡ true
digits_109 zero h = refl
digits_109 (suc zero) h = refl
digits_109 (suc (suc zero)) h = refl
digits_109 (suc (suc (suc j))) h = absurd (omega arith)

value_109 : value memory 0x10 3 ≡ 109
unfolding value
value_109 = refl

to_string-Decimal_example :
    (k : ℕ) × (m' : Memory) × (to_string memory 0x100 705 ≡ done m') × Decimal 0x100 705 k memory m'
to_string-Decimal_example = to_string-Decimal memory 0x100 705 (omega arith)

atoi-to_string_example : (to_string memory 0x100 705 >>= λ m'. atoi 11 m' 0x100) ≡ done 705
atoi-to_string_example = atoi-to_string memory 0x100 705 11 (omega arith) (omega arith)
