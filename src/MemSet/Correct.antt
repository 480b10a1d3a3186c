-- ===== src/MemSet/Correct.antt =====
-- `memset` sets exactly the bytes of its buffer, whatever the length and the alignment, and none
-- of its aligned stores faults.
use mad_os.MemSet.{
  store_aligned, stamp_five, huge_loop, try_stamp, huge_memset, middle_loop, memset,
}
use mad_os.Base.{
  ℕ, zero, suc, ◌+◌, ◌-◌, ◌*◌, ◌%◌, ◌≤◌, ◌<◌, ◌≡◌, inl, inr, refl, ap, ◌∙◌, arith, ltb, Bool-cases,
}
use mathlib.Core.Path.{subst}
use mad_os.Base.Run.{Run, done, ◌>>=◌}
use mad_os.Memory.{Memory, fill}
use mad_os.Memory.Laws.{fill-zero, fill-fill}
use mad_os.MemSet.Short.{small_memset-fill, store_aligned-fill}

-- The bytes from `s` to at least `p`, and at most 32 further, are set, with `n` of them in all.
abbrev Reaches : ℕ → ℕ → ℕ → Type 0
Reaches s n p = (s ≤ p) × (p ≤ s + n) × (s + n ≤ p + 32)

-- One aligned store at the pointer.
stamp :
    (m : Memory) (s n p c : ℕ)
    → Reaches s n p
    → p % 32 ≡ 0
    → store_aligned (fill m s n c) p c ≡ done (fill m s (p + 32 - s) c)
stamp m s n p c at h =
    store_aligned-fill (fill m s n c) p c h ∙ ap done (fill-fill m s n p 32 c at.0 at.1 at.2)

stamp_five-fill :
    (m : Memory) (s n p c : ℕ)
    → Reaches s n p
    → p % 32 ≡ 0
    → stamp_five (fill m s n c) p c ≡ done (fill m s (p + 32 * 5 - s) c)
unfolding stamp_five
stamp_five-fill m s n p c at h =
    rw
      (
        stamp m s n p c at h,
        stamp m s (p + 32 - s) (p + 32) c (omega arith) (omega arith),
        stamp m s (p + 32 + 32 - s) (p + 32 + 32) c (omega arith) (omega arith),
        stamp m s (p + 32 + 32 + 32 - s) (p + 32 + 32 + 32) c (omega arith) (omega arith),
        stamp m s (p + 32 + 32 + 32 + 32 - s) (p + 32 + 32 + 32 + 32) c (omega arith) (omega arith),
      )
      (ap (λ j. done (fill m s j c)) (omega arith))

-- Where a loop or a stamp stops: at a multiple of 32, `left` bytes at most before the end.
record Stops (m : Memory) (s c end left : ℕ) (r : Run (Memory × ℕ)) : Type 0 where
  size : ℕ
  pos : ℕ
  result : r ≡ done (fill m s size c, pos)
  reaches : Reaches s size pos
  aligned : pos % 32 ≡ 0
  near : end ≤ pos + left
  within : s + size ≤ end

huge_loop-Stops :
    (fuel : ℕ) (m : Memory) (s n p end c : ℕ)
    → Reaches s n p
    → p % 32 ≡ 0
    → s + n ≤ end
    → end < p + fuel
    → Stops m s c end 160 (huge_loop fuel (fill m s n c) p end c)
unfolding huge_loop
huge_loop-Stops zero m s n p end c at h le enough = absurd (omega arith)
huge_loop-Stops (suc fuel) m s n p end c at h le enough = elim (Bool-cases (ltb (p + 32 * 5) end)) [
  | inl more ↦
      rw (more, huge_loop, stamp_five-fill m s n p c at h)
        (huge_loop-Stops fuel m s (p + 32 * 5 - s) (p + 32 * 5) end c (omega arith) (omega arith)
          (ground arith) (omega arith))
  | inr stop ↦
      rw (stop, huge_loop)
        (record {
          size = n;
          pos = p;
          result = refl;
          reaches = at;
          aligned = h;
          near = ground arith;
          within = le;
        })
]

try_stamp-Stops :
    (m : Memory) (s c last left : ℕ) {r : Run (Memory × ℕ)}
    → 32 ≤ left
    → Stops m s c (last + 32) (left + 32) r
    → Stops m s c (last + 32) left (r >>= try_stamp last c)
unfolding try_stamp
try_stamp-Stops m s c last left some_left r = elim (Bool-cases (ltb r.pos last)) [
  | inl more ↦ record {
    size = r.pos + 32 - s;
    pos = r.pos + 32;
    result = rw (r.result, more, stamp m s r.size r.pos c r.reaches r.aligned);
    reaches = omega (arith, r.reaches);
    aligned = omega (arith, r.aligned);
    near = omega (arith, r.near);
    within = ground (arith, r.reaches);
  }
  | inr stop ↦ record {
    size = r.size;
    pos = r.pos;
    result = rw (r.result, stop);
    reaches = r.reaches;
    aligned = r.aligned;
    near = ground arith;
    within = r.within;
  }
]

-- The last, unaligned stamp completes the buffer.
finish :
    (m : Memory) (s n c : ℕ) {r : Run (Memory × ℕ)}
    → 32 ≤ n
    → Stops m s c (s + n - 32 + 32) 32 r
    → (r >>= λ r'. done (fill r'.0 (s + n - 32) 32 c)) ≡ done (fill m s n c)
finish m s n c long r = rw r.result (
    ap done (
      fill-fill m s r.size (s + n - 32) 32 c (omega arith) (omega (arith, r.reaches)) (omega arith)
      ∙ ap (λ j. fill m s j c) (omega arith)))

huge_memset-fill : (m : Memory) (s c n : ℕ) → 160 < n → huge_memset m s c n ≡ done (fill m s n c)
unfolding huge_memset
huge_memset-fill m s c n h =
    let last = s + n - 32 in
    let end : s + n ≡ last + 32 = omega arith in
    let loop : Stops m s c (s + n) 160 (huge_loop n (fill m s 32 c) (s + 32 - s % 32) (s + n) c) =
      huge_loop-Stops n m s 32 (s + 32 - s % 32) (s + n) c (omega arith) (omega arith) (omega arith)
        (omega arith) in
    let four = try_stamp-Stops m s c last 32 (omega arith) (
      try_stamp-Stops m s c last 64 (omega arith) (
        try_stamp-Stops m s c last 96 (omega arith) (
          try_stamp-Stops m s c last 128 (omega arith) (
            subst (λ e. Stops m s c e 160 (huge_loop n (fill m s 32 c) (s + 32 - s % 32) (s + n) c))
              end loop)))) in
    finish m s n c (omega arith) four

-- The unaligned loop sets the bytes up to the last whole vector, or into it.
middle_loop-fill :
    (fuel : ℕ) (m : Memory) (s k p last c : ℕ)
    → s + k ≡ p
    → last < p + 32 * fuel
    → p ≤ last
    → (j : ℕ) × (middle_loop fuel (fill m s k c) p last c ≡ done (fill m s j c))
      × (last ≤ s + j)
      × (s + j ≤ last + 32)
unfolding middle_loop
middle_loop-fill zero m s k p last c e enough le = absurd (omega arith)
middle_loop-fill (suc fuel) m s k p last c e enough le =
    let grown : fill (fill m s k c) p 32 c ≡ fill m s (k + 32) c =
      fill-fill m s k p 32 c (omega arith) (omega arith) (omega arith)
      ∙ ap (λ j. fill m s j c) (omega arith) in
    elim (Bool-cases (ltb (p + 32) last)) [
      | inl more ↦
          rw (more, middle_loop, grown)
            (middle_loop-fill fuel m s (k + 32) (p + 32) last c (omega arith) (omega arith)
              (ground arith))
      | inr stop ↦ (k + 32, rw (stop, middle_loop) (ap done grown), ground arith, omega arith)
    ]

middle_memset-fill :
    (m : Memory) (s c n : ℕ)
    → 32 ≤ n
    → (middle_loop n m s (s + n - 32) c >>= λ m'. done (fill m' (s + n - 32) 32 c))
      ≡ done (fill m s n c)
middle_memset-fill m s c n h =
    let (j, run, lo, hi) =
      middle_loop-fill n m s 0 s (s + n - 32) c (omega arith) (omega arith) (omega arith) in
    let run' : middle_loop n m s (s + n - 32) c ≡ done (fill m s j c) = rw fill-zero at run in
    rw run' (
      ap done (
        fill-fill m s j (s + n - 32) 32 c (omega arith) lo (omega arith)
        ∙ ap (λ k. fill m s k c) (omega arith)))

-- For every byte `c`, address `s` and length `n`, `memset(s, c, n)` returns, with no fault by a
-- misaligned vector store, and sets exactly the `n` bytes at `s` to `c`, leaving all others alone.
pub memset-fill : (m : Memory) (s c n : ℕ) → c < 256 → memset m s c n ≡ done (fill m s n c)
unfolding memset
memset-fill m s c n hc = elim (Bool-cases (ltb n 32)) [
  | inl small ↦ rw small (ap done (small_memset-fill m s c n hc (ground arith)))
  | inr large ↦ elim (Bool-cases (ltb 160 n)) [
    | inl huge ↦ rw (large, huge) (huge_memset-fill m s c n (ground arith))
    | inr middle ↦ rw (large, middle) (middle_memset-fill m s c n (ground arith))
  ]
]
