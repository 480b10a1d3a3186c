-- ===== src/Renderer/Glyph.antt =====
-- `PutChar` draws the glyph of a character and moves the cursor.
use mad_os.Renderer.{
  FrameBuffer, Font, Screen, column_loop, row_loop, rounds, glyph, advance, put_char,
}
use mad_os.Renderer.Pixels.{shown, Outside, lit, column_loop-lit}
use mad_os.Base.{
  ℕ, zero, suc, ◌+◌, ◌-◌, ◌*◌, ◌^◌, ◌≤◌, ◌<◌, ◌≡◌, inl, inr, refl, ap, ◌∙◌, Bool, ◌&&◌, leb, ltb,
  if◌then◌else◌, u32, Bool-cases, arith,
}
use mad_os.Memory.{Memory}
use native.Mathlib.Nat.{mul-le-mul_right}
use native.Mathlib.Decide.{ℕ_discrete}

-- A row that is another one lies wholly in front of it or behind it.
row_before : (y py w : ℕ) → py < y → py * w + w ≤ y * w
row_before y py w h = omega (arith, mul-le-mul_right {m = suc py} {n = y} w (omega arith))

-- Whether a pixel lies in `n` rows and eight columns from (x, y).
abbrev pub in_cell : (x y n px py : ℕ) → Bool
in_cell x y n px py = (leb y py && ltb py (y + n)) && (leb x px && ltb px (x + 8))

-- What a cell shows after a glyph, whose rows are the bytes from `p` on, was drawn over `old`.
abbrev pub drawn : Memory → (p x y n px py c old : ℕ) → ℕ
drawn m p x y n px py c old =
    if in_cell x y n px py && lit (m (p + (py - y))) (px - x) then c else old

-- The rows below the first one continue the drawing.
drawn_next :
    (m m1 : Memory) (p x y left px py c old new : ℕ)
    → (y < py → py < y + suc left → m1 (p + 1 + (py - (y + 1))) ≡ m (p + (py - y)))
    → new ≡ drawn m p x y 1 px py c old
    → drawn m1 (p + 1) x (y + 1) left px py c new ≡ drawn m p x y (suc left) px py c old
drawn_next m m1 p x y left px py c old new same one =
    elim (Bool-cases (ltb y py && ltb py (y + suc left))) [
      | inl below ↦ rw (same (ground arith) (ground arith)) (ground (arith, one))
      | inr not_below ↦ elim (ℕ_discrete py y) [
        | yes e ↦ rw (one, e) (ground arith)
        | no ne ↦ ground (arith, one)
      ]
    ]

module _ (fb : FrameBuffer) (size x c px : ℕ) (w : fb.pixels_per_scanline < 2 ^ 32)
    (fits : x + 8 ≤ fb.pixels_per_scanline) (is_column : px < fb.pixels_per_scanline)
    (small : size ≤ 2 ^ 32) (h : c < 2 ^ 32) where
  -- One row.
  one_row :
      (m : Memory) (p y : ℕ)
      → y * fb.pixels_per_scanline + fb.pixels_per_scanline ≤ size
      → Outside fb size p
      → (py : ℕ)
      → shown fb (column_loop fb 8 m p x x y c) (px + py * fb.pixels_per_scanline)
        ≡ drawn m p x y 1 px py c (shown fb m (px + py * fb.pixels_per_scanline))
  one_row m p y inside out py =
      let o = y * fb.pixels_per_scanline in
      let row : u32 o ≡ o = omega arith in
      let (draws, _) =
        column_loop-lit fb y o size p x c row out h 8 m x (omega arith) (omega arith) in
      draws (px + py * fb.pixels_per_scanline) ∙ elim (ℕ_discrete py y) [
        | yes e ↦
            let e' : p + (y - y) ≡ p = omega arith in
            let e'' : px + o - o - x ≡ px - x = omega arith in rw (e, e', e'') (ground arith)
        | no ne ↦
            ground (
              arith,
              row_before y py fb.pixels_per_scanline,
              row_before py y fb.pixels_per_scanline,
            )
      ]

  one_row_frame :
      (m : Memory) (p y : ℕ)
      → y * fb.pixels_per_scanline + fb.pixels_per_scanline ≤ size
      → Outside fb size p
      → (a : ℕ) → Outside fb size a
      → column_loop fb 8 m p x x y c a ≡ m a
  one_row_frame m p y inside out =
      let o = y * fb.pixels_per_scanline in
      let row : u32 o ≡ o = omega arith in
      (column_loop-lit fb y o size p x c row out h 8 m x (omega arith) (omega arith)).1

  rows_inside :
      (y left : ℕ)
      → (y + suc left) * fb.pixels_per_scanline ≤ size
      → y * fb.pixels_per_scanline + fb.pixels_per_scanline ≤ size
  rows_inside y left all = omega (
    arith,
    all,
    mul-le-mul_right {m = suc y} {n = y + suc left} fb.pixels_per_scanline (omega arith),
  )

  pub row_loop-drawn :
      (left : ℕ) (m : Memory) (p y : ℕ)
      → (y + left) * fb.pixels_per_scanline ≤ size
      → ((r : ℕ) → r < left → Outside fb size (p + r))
      → ((py : ℕ)
          → shown fb (row_loop fb left m p x y c) (px + py * fb.pixels_per_scanline)
            ≡ drawn m p x y left px py c (shown fb m (px + py * fb.pixels_per_scanline)))
        × ((a : ℕ) → Outside fb size a → row_loop fb left m p x y c a ≡ m a)
  unfolding row_loop
  row_loop-drawn zero m p y all out = ((λ py. ground arith), (λ a out'. refl))
  row_loop-drawn (suc left) m p y all out =
      let count : rounds x 8 ≡ 8 = omega arith in
      let m1 = column_loop fb 8 m p x x y c in
      let inside = rows_inside y left all in
      let first : p + 0 ≡ p = omega arith in
      let here : Outside fb size p = rw first at (out 0 (omega arith)) in
      let keeps = one_row_frame m p y inside here in
      let next : y + 1 + left ≡ y + suc left = omega arith in
      let out' : (r : ℕ) → r < left → Outside fb size (p + 1 + r) =
        λ r lt. let e : p + 1 + r ≡ p + suc r = omega arith in rw e (out (suc r) (omega arith)) in
      let (draws, frame) = row_loop-drawn left m1 (p + 1) (y + 1) (rw next all) out' in
      (
        (λ py. rw count (
            draws py
            ∙ drawn_next m m1 p x y left px py c _ _ (same m m1 p y left keeps out' py)
                (one_row m p y inside here py))),
        (λ a o. rw count (frame a o ∙ keeps a o)),
      )
    where
      same :
          (m m1 : Memory) (p y left : ℕ)
          → ((a : ℕ) → Outside fb size a → m1 a ≡ m a)
          → ((r : ℕ) → r < left → Outside fb size (p + 1 + r))
          → (py : ℕ) → y < py
          → py < y + suc left
          → m1 (p + 1 + (py - (y + 1))) ≡ m (p + (py - y))
      same m m1 p y left keeps out' py lo hi =
          let e : p + 1 + (py - (y + 1)) ≡ p + (py - y) = omega arith in
          keeps (p + 1 + (py - (y + 1))) (out' (py - (y + 1)) (omega arith)) ∙ ap m e

-- `t` is the screen after a character was put on `s`: its glyph stands at the cursor of `s` in the
-- colour of `s`, no other pixel and no memory outside the `size` pixels has changed, and the cursor
-- has moved behind the glyph, or to the next row of text if another glyph would not fit.
pub record Draws (fb : FrameBuffer) (font : Font) (s : Screen) (ch size : ℕ) (t : Screen)
    : Type 0 where
  pub shows :
      (px py : ℕ)
      → px < fb.pixels_per_scanline
      → shown fb t.mem (px + py * fb.pixels_per_scanline)
        ≡ drawn s.mem
            (glyph font ch)
            s.x
            s.y
            16
            px
            py
            s.color
            (shown fb s.mem (px + py * fb.pixels_per_scanline))
  pub others : (a : ℕ) → Outside fb size a → t.mem a ≡ s.mem a
  pub cursor :
      (t.x ≡ (if leb (s.x + 16) fb.width then s.x + 8 else 0))
      × (t.y ≡ (if leb (s.x + 16) fb.width then s.y else s.y + 16))
  pub same_color : t.color ≡ s.color

module _ (fb : FrameBuffer) (s : Screen) where
  pub advance-mem : (advance fb s).mem ≡ s.mem
  unfolding advance
  advance-mem = ground arith

  pub advance-color : (advance fb s).color ≡ s.color
  unfolding advance
  advance-color = ground arith

  pub advance-cursor :
      s.x + 16 < 2 ^ 32
      → s.y + 16 < 2 ^ 32
      → ((advance fb s).x ≡ (if leb (s.x + 16) fb.width then s.x + 8 else 0))
        × ((advance fb s).y ≡ (if leb (s.x + 16) fb.width then s.y else s.y + 16))
  unfolding advance
  advance-cursor hx hy = (ground arith, ground arith)

-- If the frame buffer has fewer than `2 ^ 32` pixels in a row, the cell at the cursor lies within the
-- first `size` of at most `2 ^ 32` pixels, and the glyph outside of them, `PutChar` draws the glyph
-- of the character at the cursor, in the colour of the screen, and moves the cursor on.
pub put_char-Draws :
    (fb : FrameBuffer) (font : Font) (s : Screen) (ch size : ℕ)
    → fb.pixels_per_scanline + 16 < 2 ^ 32
    → s.x + 8 ≤ fb.pixels_per_scanline
    → s.y + 16 < 2 ^ 32
    → (s.y + 16) * fb.pixels_per_scanline ≤ size
    → size ≤ 2 ^ 32
    → s.color < 2 ^ 32
    → ((r : ℕ) → r < 16 → Outside fb size (glyph font ch + r))
    → Draws fb font s ch size (put_char fb font s ch)
unfolding put_char
put_char-Draws fb font s ch size hw fits hy inside small hc out =
    let s' = record s { mem = row_loop fb (rounds s.y 16) s.mem (glyph font ch) s.x s.y s.color } in
    let count : rounds s.y 16 ≡ 16 = omega arith in
    let w : fb.pixels_per_scanline < 2 ^ 32 = omega arith in
    let drawing = λ (px : ℕ) (is_column : px < fb.pixels_per_scanline).
      row_loop-drawn fb size s.x s.color px w fits is_column small hc 16 s.mem (glyph font ch) s.y
        inside out in
    record {
      shows = λ px py is_column. rw (advance-mem fb s', count) ((drawing px is_column).0 py);
      others = λ a o. rw (advance-mem fb s', count) ((drawing 0 (omega arith)).1 a o);
      cursor = advance-cursor fb s' (omega arith) hy;
      same_color = advance-color fb s';
    }
