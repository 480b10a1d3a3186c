-- ===== src/Paging/Entry/Laws.antt =====
-- The address field and the flags of an entry do not disturb one another.
use mad_os.Paging.Entry.{
  PageFlag, present, position, bit_selector, set_flag, get_flag, set_address, get_address,
}
use mad_os.Base.{
  ℕ, ◌+◌, ◌-◌, ◌*◌, ◌/◌, ◌%◌, ◌^◌, ◌<◌, ◌≡◌, ◌≢◌, refl, sym, ◌∙◌, ap, Bool, true, false, ◌==◌, ltb,
  u64, ◌<<◌, bit_and, bit_or, arith, lt→ltb,
}
use native.Mathlib.Nat.{one-le-pow}
use mad_os.Base.Bits.{
  bit, bit-write_mask_self, bit-write_mask_ne, write_mask-lt, bit_and_fields, bit_or_fields,
  bit_and_mask, bit_or_low, bit_or-zero, write_mask_above, digit, bit_and-zero,
}

-- `get_address` reads bits 12 to 51.
get_address-field : (e : ℕ) → get_address e ≡ e / 2 ^ 12 % 2 ^ 40
unfolding get_address
get_address-field e =
    let whole : e / 2 ^ 12 * 2 ^ 12 + e % 2 ^ 12 ≡ e = omega arith in
    let masked : bit_and (e / 2 ^ 12 * 2 ^ 12 + e % 2 ^ 12) ((2 ^ 40 - 1) * 2 ^ 12 + 0)
        ≡ e / 2 ^ 12 % 2 ^ 40 * 2 ^ 12 =
      bit_and_fields 12 (e / 2 ^ 12) (e % 2 ^ 12) (2 ^ 40 - 1) 0 (omega arith) (omega arith)
      ∙ rw (bit_and_mask 40 (e / 2 ^ 12), bit_and-zero) (omega arith) in
    let masked' : bit_and e 0x000ffffffffff000 ≡ e / 2 ^ 12 % 2 ^ 40 * 2 ^ 12 =
      rw whole at masked in
    rw masked' (omega arith)

-- `set_address` puts the address between the two groups of flags.
set_address-sum :
    (e addr : ℕ)
    → e < 2 ^ 64
    → set_address e addr ≡ e / 2 ^ 52 * 2 ^ 52 + addr % 2 ^ 40 * 2 ^ 12 + e % 2 ^ 12
unfolding set_address
set_address-sum e addr h =
    let whole : e / 2 ^ 52 * 2 ^ 52 + e % 2 ^ 52 ≡ e = omega arith in
    let flags : bit_and (e / 2 ^ 52 * 2 ^ 52 + e % 2 ^ 52) ((2 ^ 12 - 1) * 2 ^ 52 + (2 ^ 12 - 1))
        ≡ e / 2 ^ 52 * 2 ^ 40 * 2 ^ 12 + e % 2 ^ 12 =
      bit_and_fields 52 (e / 2 ^ 52) (e % 2 ^ 52) (2 ^ 12 - 1) (2 ^ 12 - 1) (omega arith)
        (omega arith)
      ∙ rw (bit_and_mask 12 (e / 2 ^ 52), bit_and_mask 12 (e % 2 ^ 52)) (omega arith) in
    let flags' : bit_and e 0xfff0000000000fff ≡ e / 2 ^ 52 * 2 ^ 40 * 2 ^ 12 + e % 2 ^ 12 =
      rw whole at flags in
    let low : u64 (bit_and addr 0x000000ffffffffff << 12) ≡ addr % 2 ^ 40 * 2 ^ 12 + 0 =
      rw (bit_and_mask 40 addr) (omega arith) in
    let joined : bit_or (e / 2 ^ 52 * 2 ^ 40) (addr % 2 ^ 40)
        ≡ e / 2 ^ 52 * 2 ^ 40 + addr % 2 ^ 40 =
      bit_or_low 40 (e / 2 ^ 52) (addr % 2 ^ 40) (omega arith) in
    rw (flags', low)
      (bit_or_fields 12 (e / 2 ^ 52 * 2 ^ 40) (e % 2 ^ 12) (addr % 2 ^ 40) 0 (omega arith)
          (omega arith)
        ∙ rw (joined, bit_or-zero) (omega arith))

-- An address that was set is read back, cut to its 40 bits; the twelve flags below it and the
-- twelve above it stay as they were.
pub set_address_lem :
    (e addr : ℕ)
    → e < 2 ^ 64
    → (get_address (set_address e addr) ≡ addr % 2 ^ 40)
      × (set_address e addr % 2 ^ 12 ≡ e % 2 ^ 12)
      × (set_address e addr / 2 ^ 52 ≡ e / 2 ^ 52)
      × (set_address e addr < 2 ^ 64)
set_address_lem e addr h =
    rw (get_address-field (set_address e addr), set_address-sum e addr h) (omega arith)

position-lt : (flag : PageFlag) → position flag < 64
position-lt present = omega arith
position-lt flag = omega arith

selector : (flag : PageFlag) → bit_selector flag ≡ 2 ^ position flag
selector flag = omega arith

-- `setFlag` writes its flag: the flag's bit becomes the value, and no other bit of the word changes.
pub set_flag_lem :
    (e : ℕ) (flag : PageFlag) (v : Bool)
    → (bit (set_flag e flag v) (position flag) ≡ digit v)
      × ((j : ℕ) → j < 64 → position flag ≢ j → bit (set_flag e flag v) j ≡ bit e j)
      × (e < 2 ^ 64 → set_flag e flag v < 2 ^ 64)
unfolding set_flag
set_flag_lem e flag v = rw (selector flag) (
  bit-write_mask_self 64 e (position flag) (position-lt flag) v,
  bit-write_mask_ne 64 e (position flag) (position-lt flag) v,
  write_mask-lt 64 e (position flag) (position-lt flag) v,
)

-- Setting a flag below the address leaves the address.
pub get_address-set_flag :
    (e : ℕ) (flag : PageFlag) (v : Bool)
    → position flag < 12
    → e < 2 ^ 64
    → get_address (set_flag e flag v) ≡ get_address e
unfolding set_flag
get_address-set_flag e flag v low small =
    let high : set_flag e flag v / 2 ^ 12 ≡ e / 2 ^ 12 =
      rw (selector flag) (write_mask_above 64 e (position flag) 12 v low (omega arith) small) in
    get_address-field (set_flag e flag v) ∙ ap (λ q. q % 2 ^ 40) high ∙ sym (get_address-field e)

-- Whatever the flag, `getFlag` tests the lowest bit, that of `Present`.
pub get_flag-Present : (e : ℕ) (flag : PageFlag) → get_flag e flag ≡ (bit e (position present) == 1)
unfolding get_flag bit
get_flag-Present e flag =
    let some_bit : ltb 0 (bit_selector flag) ≡ true =
      lt→ltb 0 (bit_selector flag) (omega (arith, one-le-pow (position flag) 2 (omega arith))) in
    rw (some_bit, bit_and_mask 1 e) (ground arith)

-- `getFlag` answers for `Present` what `setFlag` was told.
pub get_flag-set_flag_present : (e : ℕ) (v : Bool) → get_flag (set_flag e present v) present ≡ v
get_flag-set_flag_present e v =
    get_flag-Present (set_flag e present v) present ∙ rw (set_flag_lem e present v).0 (back v)
  where
    back : (v : Bool) → (digit v == 1) ≡ v
    back true = refl
    back false = refl

pub get_address-lt : (e : ℕ) → get_address e < 2 ^ 40
get_address-lt e = rw (get_address-field e) (omega arith)
