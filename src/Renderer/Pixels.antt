-- ===== src/Renderer/Pixels.antt =====
-- Single pixels, and the loops of `PutChar` over the rows and columns of a character.
use mad_os.Renderer.{FrameBuffer, pixel, column_loop}
use mad_os.Base.{
  ℕ, zero, suc, ◌+◌, ◌-◌, ◌*◌, ◌^◌, ◌≤◌, ◌<◌, ◌≡◌, ◌≢◌, ◌⊎◌, inl, inr, refl, ◌∙◌, Bool, ◌&&◌, ◌==◌,
  leb, ltb, if◌then◌else◌, u32, Bool-cases, arith, bit_and, ◌>>>◌,
}
use mad_os.Memory.{Memory, load32, store32}
use mad_os.Memory.Laws.{load-store, load-store_apart, store_frame}

-- The colour that stands at a pixel of the frame buffer, which is counted row by row.
abbrev pub shown : FrameBuffer → Memory → (i : ℕ) → ℕ
shown fb m i = load32 m (fb.base_address + 4 * i)

-- The address lies outside the first `size` pixels.
abbrev pub Outside : FrameBuffer → (size a : ℕ) → Type 0
Outside fb size a = (a < fb.base_address) ⊎ (fb.base_address + 4 * size ≤ a)

-- `PutChar` tests this bit of a row of a glyph.
abbrev pub lit : (row k : ℕ) → Bool
lit row k = ltb 0 (bit_and row (0b10000000 >>> k))

module _ (fb : FrameBuffer) (m : Memory) (i c : ℕ) where
  abbrev plotted : Memory
  plotted = store32 m (fb.base_address + 4 * i) c

  shown_self : c < 2 ^ 32 → shown fb plotted i ≡ c
  shown_self h = omega (arith, load-store 4 m (fb.base_address + 4 * i) c)

  shown_other : (j : ℕ) → j ≢ i → shown fb plotted j ≡ shown fb m j
  shown_other j ne =
      load-store_apart 4 4 m (fb.base_address + 4 * j) (fb.base_address + 4 * i) c (ground arith)

  pub shown-plotted :
      (j : ℕ) → c < 2 ^ 32 → shown fb plotted j ≡ (if j == i then c else shown fb m j)
  shown-plotted j h = ground (arith, shown_self h, shown_other j)

  pub plotted_frame : (size a : ℕ) → i < size → Outside fb size a → plotted a ≡ m a
  plotted_frame size a h (inl lo) =
      store_frame 4 m (fb.base_address + 4 * i) c a (inl (omega arith))
  plotted_frame size a h (inr hi) =
      store_frame 4 m (fb.base_address + 4 * i) c a (inr (omega arith))

-- Eight columns of one row, from `x` on; `o` is where the row starts.
module _ (fb : FrameBuffer) (y o size p e c : ℕ) (row : u32 (y * fb.pixels_per_scanline) ≡ o)
    (out : Outside fb size p) (h : c < 2 ^ 32) where
  pub column_loop-lit :
      (left : ℕ) (m : Memory) (x : ℕ)
      → e ≤ x
      → x + left + o ≤ size
      → ((j : ℕ)
          → shown fb (column_loop fb left m p e x y c) j ≡ (
              if leb (x + o) j && ltb j (x + left + o) && lit (m p) (j - o - e)
              then c
              else shown fb m j))
        × ((a : ℕ) → Outside fb size a → column_loop fb left m p e x y c a ≡ m a)
  unfolding column_loop pixel
  column_loop-lit zero m x lo hi = ((λ j. ground arith), (λ a out'. refl))
  column_loop-lit (suc left) m x lo hi = elim (Bool-cases (lit (m p) (x - e))) [
    | inl on ↦
        let m' = store32 m (fb.base_address + 4 * (x + o)) c in
        let (inner, outer) = column_loop-lit left m' (x + 1) (omega arith) (omega arith) in
        let same : m' p ≡ m p = plotted_frame fb m (x + o) c size p (omega arith) out in
        (
          (λ j.
              rw (row, on) (inner j ∙ rw same (ground (arith, shown-plotted fb m (x + o) c j h)))),
          (λ a out'.
              rw (row, on) (outer a out' ∙ plotted_frame fb m (x + o) c size a (omega arith) out')),
        )
    | inr off ↦
        let (inner, outer) = column_loop-lit left m (x + 1) (omega arith) (omega arith) in
        ((λ j. rw (row, off) (inner j ∙ ground arith)), (λ a out'. rw (row, off) (outer a out')))
  ]
