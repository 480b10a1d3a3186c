-- ===== src/Pci/Address.antt =====
-- The fields of a configuration address do not overlap: it names one register of one function.
use mad_os.Pci.{make_id, config_address}
use mad_os.Base.{ℕ, ◌+◌, ◌-◌, ◌*◌, ◌/◌, ◌%◌, ◌^◌, ◌<◌, ◌≡◌, ap, ◌∙◌, u32, bit_and, bit_or, arith}
use mad_os.Base.Bits.{bit_and_fields, bit_and_mask, bit_or_low, bit_and-zero}

make_id-sum :
    (bus dev func : ℕ)
    → dev < 32
    → func < 8
    → make_id bus dev func ≡ bus * 2 ^ 16 + dev * 2 ^ 11 + func * 2 ^ 8
unfolding make_id
make_id-sum bus dev func hd hf =
    let high : bit_or (bus * 2 ^ 16) (dev * 2 ^ 11) ≡ bus * 2 ^ 16 + dev * 2 ^ 11 =
      bit_or_low 16 bus (dev * 2 ^ 11) (omega arith) in
    let shifted : bus * 2 ^ 16 + dev * 2 ^ 11 ≡ (bus * 2 ^ 5 + dev) * 2 ^ 11 = omega arith in
    rw (high, shifted)
      (bit_or_low 11 (bus * 2 ^ 5 + dev) (func * 2 ^ 8) (omega arith) ∙ omega arith)

-- `reg & 0xfc`
register : (reg : ℕ) → reg < 256 → bit_and reg 0xfc ≡ reg / 4 * 4
register reg h =
    let whole : reg / 4 * 2 ^ 2 + reg % 4 ≡ reg = omega arith in
    let masked : bit_and (reg / 4 * 2 ^ 2 + reg % 4) ((2 ^ 6 - 1) * 2 ^ 2 + 0) ≡ reg / 4 * 4 =
      bit_and_fields 2 (reg / 4) (reg % 4) (2 ^ 6 - 1) 0 (omega arith) (omega arith)
      ∙ rw (bit_and_mask 6 (reg / 4), bit_and-zero) (omega arith) in
    rw whole at masked

-- For a bus below 256, a device below 32, a function below 8 and a register below 256, the address is
-- the enable bit, the three numbers in fields of 8, 5 and 3 bits, and the register rounded down to a
-- multiple of four.
pub config_address-fields :
    (bus dev func reg : ℕ)
    → bus < 256
    → dev < 32
    → func < 8
    → reg < 256
    → config_address (make_id bus dev func) reg
      ≡ 2 ^ 31 + bus * 2 ^ 16 + dev * 2 ^ 11 + func * 2 ^ 8 + reg / 4 * 4
unfolding config_address
config_address-fields bus dev func reg hb hd hf hr =
    let id = bus * 2 ^ 16 + dev * 2 ^ 11 + func * 2 ^ 8 in
    let enabled : bit_or (1 * 2 ^ 31) id ≡ 1 * 2 ^ 31 + id = bit_or_low 31 1 id (omega arith) in
    let fields : 1 * 2 ^ 31 + id ≡ (2 ^ 23 + bus * 2 ^ 8 + dev * 2 ^ 3 + func) * 2 ^ 8 =
      omega arith in
    rw (make_id-sum bus dev func hd hf, register reg hr, enabled, fields)
      (ap u32 (bit_or_low 8 (2 ^ 23 + bus * 2 ^ 8 + dev * 2 ^ 3 + func) (reg / 4 * 4) (omega arith))
        ∙ omega arith)
