-- ===== src/Bitmap/Laws.antt =====
-- A bitmap is an array of bits: what `Set` wrote, `Get` reads, and the other bits stay.
use mad_os.Bitmap.{Bitmap, beyond, bit_indexer, get, set}
use mad_os.Base.{
  ℕ, zero, suc, ◌+◌, ◌-◌, ◌/◌, ◌%◌, ◌^◌, ◌<◌, ◌≡◌, ◌≢◌, refl, sym, ◌∙◌, ap, Bool, true, false, ◌==◌,
  if◌then◌else◌, u8, ◌>>>◌, arith, Bool-cases, inl, inr,
}
use mad_os.Base.Bits.{
  bit, write_mask, bit-write_mask_self, bit-write_mask_ne, write_mask-lt, ltb-bit_and-pow,
}
use native.Mathlib.Decide.{ℕ_discrete}
use mad_os.Memory.{Memory, store8}
use mad_os.Memory.Laws.{IsBytes}

-- The bit of a byte that stands for an index.
abbrev place : ℕ → ℕ
place index = 7 - index % 8

bit_indexer-pow : (index : ℕ) → bit_indexer index ≡ 2 ^ place index
bit_indexer-pow index = table (index % 8) (omega arith)
  where
    table : (r : ℕ) → r < 8 → u8 (0x80 >>> r) ≡ 2 ^ (7 - r)
    table zero h = refl
    table (suc zero) h = refl
    table (suc (suc zero)) h = refl
    table (suc (suc (suc zero))) h = refl
    table (suc (suc (suc (suc zero)))) h = refl
    table (suc (suc (suc (suc (suc zero))))) h = refl
    table (suc (suc (suc (suc (suc (suc zero)))))) h = refl
    table (suc (suc (suc (suc (suc (suc (suc zero))))))) h = refl
    table (suc (suc (suc (suc (suc (suc (suc (suc r)))))))) h = absurd (omega arith)

-- `Get` within the bitmap reads one bit of one byte.
get-bit :
    (m : Memory) (b : Bitmap) (i : ℕ)
    → beyond b i ≡ false
    → get m b i ≡ (bit (m (b.buffer + i / 8)) (place i) == 1)
unfolding get
get-bit m b i h = rw (h, bit_indexer-pow i) (ltb-bit_and-pow (m (b.buffer + i / 8)) (place i))

-- The byte of an index after `Set`.
set_byte :
    (m : Memory) (b : Bitmap) (i : ℕ) (v : Bool)
    → beyond b i ≡ false
    → (set m b i v).0 (b.buffer + i / 8) ≡ write_mask 8 (m (b.buffer + i / 8)) (2 ^ place i) v
unfolding set store8
set_byte m b i v h = rw (h, bit_indexer-pow i) (ground arith)

-- A write touches one byte, that of its index.
pub set_frame :
    (m : Memory) (b : Bitmap) (i : ℕ) (v : Bool) (x : ℕ)
    → x ≢ b.buffer + i / 8
    → (set m b i v).0 x ≡ m x
unfolding set store8
set_frame m b i v x ne = ground arith

-- Beyond the bitmap nothing is written, and the result is false; within it the result is true.
pub set-beyond :
    (m : Memory) (b : Bitmap) (i : ℕ) (v : Bool) → beyond b i ≡ true → set m b i v ≡ (m, false)
unfolding set
set-beyond m b i v h = rw h

pub set_within :
    (m : Memory) (b : Bitmap) (i : ℕ) (v : Bool) → beyond b i ≡ false → (set m b i v).1 ≡ true
unfolding set
set_within m b i v h = rw h

pub get-beyond : (m : Memory) (b : Bitmap) (i : ℕ) → beyond b i ≡ true → get m b i ≡ false
unfolding get
get-beyond m b i h = rw h

pub get-set_self :
    (m : Memory) (b : Bitmap) (i : ℕ) (v : Bool) → beyond b i ≡ false → get (set m b i v).0 b i ≡ v
get-set_self m b i v h =
    get-bit (set m b i v).0 b i h
    ∙ rw
        (set_byte m b i v h, bit-write_mask_self 8 (m (b.buffer + i / 8)) (place i) (omega arith) v)
        (back v)
  where
    back : (v : Bool) → ((if v then 1 else 0) == 1) ≡ v
    back true = refl
    back false = refl

other_bit :
    (m : Memory) (b : Bitmap) (i j : ℕ) (v : Bool)
    → beyond b i ≡ false
    → i ≢ j
    → bit ((set m b i v).0 (b.buffer + j / 8)) (place j) ≡ bit (m (b.buffer + j / 8)) (place j)
other_bit m b i j v h ne = elim (ℕ_discrete (i / 8) (j / 8)) [
  | yes same ↦ rw (
    ← same,
    set_byte m b i v h,
    bit-write_mask_ne 8 (m (b.buffer + i / 8)) (place i) (omega arith) v (place j) (omega arith)
        (λ e. ne (omega arith)),
  )
  | no apart ↦ rw (set_frame m b i v (b.buffer + j / 8) (λ e. apart (omega arith)))
]

pub get-set_ne :
    (m : Memory) (b : Bitmap) (i j : ℕ) (v : Bool) → i ≢ j → get (set m b i v).0 b j ≡ get m b j
get-set_ne m b i j v ne = elim (Bool-cases (beyond b i)) [
  | inl out ↦ rw (set-beyond m b i v out)
  | inr in_i ↦ elim (Bool-cases (beyond b j)) [
    | inl out ↦ get-beyond (set m b i v).0 b j out ∙ sym (get-beyond m b j out)
    | inr in_j ↦
        get-bit (set m b i v).0 b j in_j
        ∙ ap (λ d. d == 1) (other_bit m b i j v in_i ne)
        ∙ sym (get-bit m b j in_j)
  ]
]

-- Both accessors read the buffer only.
pub get_cong :
    (m k : Memory) (b : Bitmap) (i : ℕ)
    → m (b.buffer + i / 8) ≡ k (b.buffer + i / 8)
    → get m b i ≡ get k b i
unfolding get
get_cong m k b i e = rw e

pub set-IsBytes : (m : Memory) (b : Bitmap) (i : ℕ) (v : Bool) → IsBytes m → IsBytes (set m b i v).0
unfolding set store8
set-IsBytes m b i v h x = ground (
  arith,
  h x,
  bit_indexer-pow i,
  write_mask-lt 8 (m (b.buffer + i / 8)) (place i) (omega arith) v (h (b.buffer + i / 8)),
)
