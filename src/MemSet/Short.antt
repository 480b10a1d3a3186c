-- ===== src/MemSet/Short.antt =====
-- A short buffer is set by scalar stores that overlap.
use mad_os.MemSet.{val8, small_memset, store_aligned}
use mad_os.Base.{
  ℕ, ◌+◌, ◌-◌, ◌%◌, ◌≤◌, ◌<◌, ◌≡◌, inl, inr, ap, ◌∙◌, arith, ltb, leb, Bool-cases, ge→ltb, fun_ext,
  u8, u32,
}
use mad_os.Base.Run.{done}
use mad_os.Memory.{Memory, store8, fill}
use mad_os.Memory.Laws.{fill-fill, fill-fill_before, repeat_byte, store-repeat_byte}

val8-repeat : (c : ℕ) → c < 256 → val8 c ≡ repeat_byte 8 c
unfolding val8 repeat_byte
val8-repeat c h = omega arith

val4-repeat : (c : ℕ) → c < 256 → u32 (val8 c) ≡ repeat_byte 4 c
unfolding val8 repeat_byte
val4-repeat c h = omega arith

-- Two stores that start at both ends of the buffer, as one fill.
two_ends :
    (m : Memory) (s n k c : ℕ)
    → k ≤ n
    → n ≤ k + k
    → fill (fill m s k c) (s + n - k) k c ≡ fill m s n c
two_ends m s n k c lo hi =
    fill-fill m s k (s + n - k) k c (omega arith) (omega arith) (omega arith)
    ∙ ap (λ j. fill m s j c) (omega arith)

two_ends_back :
    (m : Memory) (s n k c : ℕ)
    → k ≤ n
    → n ≤ k + k
    → fill (fill m (s + n - k) k c) s k c ≡ fill m s n c
two_ends_back m s n k c lo hi =
    fill-fill_before m (s + n - k) k s k c (omega arith) (omega arith) (omega arith)
    ∙ ap (λ j. fill m s j c) (omega arith)

tiny-fill : (m : Memory) (s c n : ℕ) → c < 256 → n < 5 → small_memset m s c n ≡ fill m s n c
unfolding small_memset store8 fill
tiny-fill m s c n hc hn = fun_ext λ x. ground arith

short-fill :
    (m : Memory) (s c n : ℕ) → c < 256 → 5 ≤ n → n < 32 → small_memset m s c n ≡ fill m s n c
unfolding small_memset
short-fill m s c n hc lo hi =
    let e : u8 c ≡ c = omega arith in
    elim (Bool-cases (leb n 16)) [
      | inr long ↦
          rw (ge→ltb n 5 lo, long, e) (two_ends_back m s n 16 c (ground arith) (omega arith))
      | inl short ↦ elim (Bool-cases (leb 8 n)) [
        | inl eight ↦
            rw
              (
                ge→ltb n 5 lo,
                short,
                eight,
                val8-repeat c hc,
                store-repeat_byte 8 m s c hc,
                store-repeat_byte 8 (fill m s 8 c) (s + n - 8) c hc,
              )
              (two_ends m s n 8 c (ground arith) (ground arith))
        | inr four ↦
            rw
              (
                ge→ltb n 5 lo,
                short,
                four,
                val4-repeat c hc,
                store-repeat_byte 4 m s c hc,
                store-repeat_byte 4 (fill m s 4 c) (s + n - 4) c hc,
              )
              (two_ends m s n 4 c (ground arith) (ground arith))
      ]
    ]

pub small_memset-fill :
    (m : Memory) (s c n : ℕ) → c < 256 → n < 32 → small_memset m s c n ≡ fill m s n c
small_memset-fill m s c n hc hn = elim (Bool-cases (ltb n 5)) [
  | inl tiny ↦ tiny-fill m s c n hc (ground arith)
  | inr short ↦ short-fill m s c n hc (ground arith) hn
]

pub store_aligned-fill :
    (m : Memory) (p c : ℕ) → p % 32 ≡ 0 → store_aligned m p c ≡ done (fill m p 32 c)
unfolding store_aligned
store_aligned-fill m p c h = rw h
