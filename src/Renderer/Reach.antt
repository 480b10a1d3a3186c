-- ===== src/Renderer/Reach.antt =====
-- What the renderer may write, wherever its cursor stands: the `2 ^ 35` bytes from the base address of
-- the frame buffer on, which its 32-bit coordinates reach.
use mad_os.Renderer.{
  FrameBuffer, Font, Screen, pixel, column_loop, row_loop, rounds, glyph, advance, put_char,
  erase_columns, erase_rows, remove_char, put_text, print,
}
use mad_os.Renderer.Pixels.{Outside, plotted_frame}
use mad_os.Renderer.Glyph.{advance-mem}
use mad_os.Base.{
  ℕ, zero, suc, ◌+◌, ◌-◌, ◌*◌, ◌^◌, ◌≤◌, ◌<◌, ◌≡◌, refl, ◌∙◌, ap, true, false, ltb, ◌==◌, u32,
  ◌>>>◌, bit_and, Bool-cases, inl, inr, arith, List, [], ◌∷◌, length,
}
use mad_os.Base.Run.{done}
use mad_os.Memory.{Memory, store32}

abbrev pub FarFrom : FrameBuffer → (a : ℕ) → Type 0
FarFrom fb a = Outside fb (2 ^ 33) a

module _ (fb : FrameBuffer) (a : ℕ) (far : FarFrom fb a) where
  pixel_frame : (m : Memory) (x y c : ℕ) → x < 2 ^ 32 → store32 m (pixel fb x y) c a ≡ m a
  unfolding pixel
  pixel_frame m x y c h =
      plotted_frame fb m (x + u32 (y * fb.pixels_per_scanline)) c (2 ^ 33) a (omega arith) far

  column_loop_frame :
      (left : ℕ) (m : Memory) (p e x y c : ℕ)
      → x + left ≤ 2 ^ 32
      → column_loop fb left m p e x y c a ≡ m a
  unfolding column_loop
  column_loop_frame zero m p e x y c h = refl
  column_loop_frame (suc left) m p e x y c h =
      elim (Bool-cases (ltb 0 (bit_and (m p) (0b10000000 >>> (x - e))))) [
        | inl on ↦ rw on (
            column_loop_frame left (store32 m (pixel fb x y) c) p e (x + 1) y c (omega arith)
            ∙ pixel_frame m x y c (omega arith))
        | inr off ↦ rw off (column_loop_frame left m p e (x + 1) y c (omega arith))
      ]

  row_loop_frame :
      (left : ℕ) (m : Memory) (p x y c : ℕ) → x < 2 ^ 32 → row_loop fb left m p x y c a ≡ m a
  unfolding row_loop
  row_loop_frame zero m p x y c h = refl
  row_loop_frame (suc left) m p x y c h =
      row_loop_frame left (column_loop fb (rounds x 8) m p x x y c) (p + 1) x (y + 1) c h
      ∙ column_loop_frame (rounds x 8) m p x x y c (omega arith)

  pub put_char_frame :
      (font : Font) (s : Screen) (ch : ℕ) → s.x < 2 ^ 32 → (put_char fb font s ch).mem a ≡ s.mem a
  unfolding put_char
  put_char_frame font s ch h =
      let m = row_loop fb (rounds s.y 16) s.mem (glyph font ch) s.x s.y s.color in
      ap (λ k. k a) (advance-mem fb (record s { mem = m }))
      ∙ row_loop_frame (rounds s.y 16) s.mem (glyph font ch) s.x s.y s.color h

  erase_columns_frame :
      (left : ℕ) (m : Memory) (x y : ℕ) → x < 2 ^ 32 → erase_columns fb left m x y a ≡ m a
  unfolding erase_columns
  erase_columns_frame zero m x y h = refl
  erase_columns_frame (suc left) m x y h =
      erase_columns_frame left (store32 m (pixel fb x y) 0x272829) (x - 1) y (omega arith)
      ∙ pixel_frame m x y 0x272829 h

  erase_rows_frame :
      (left : ℕ) (m : Memory) (n x y : ℕ) → x < 2 ^ 32 → erase_rows fb left m n x y a ≡ m a
  unfolding erase_rows
  erase_rows_frame zero m n x y h = refl
  erase_rows_frame (suc left) m n x y h =
      erase_rows_frame left (erase_columns fb n m x y) n x (y + 1) h ∙ erase_columns_frame n m x y h

  pub remove_char_frame : (s : Screen) → s.x < 2 ^ 32 → (remove_char fb s).mem a ≡ s.mem a
  unfolding remove_char
  remove_char_frame s h =
      erase_rows_frame (rounds s.y 16) s.mem (s.x - u32 (s.x + 2 ^ 32 - 8)) s.x s.y h

-- The cursor stays a 32-bit number.
pub put_char-x :
    (fb : FrameBuffer) (font : Font) (s : Screen) (ch : ℕ) → (put_char fb font s ch).x < 2 ^ 32
unfolding put_char advance
put_char-x fb font s ch = ground arith

pub remove_char-x : (fb : FrameBuffer) (s : Screen) → (remove_char fb s).x < 2 ^ 32
unfolding remove_char
remove_char-x fb s = omega arith

put_text_frame :
    (fb : FrameBuffer) (font : Font) (text : List ℕ) (s : Screen) (a : ℕ)
    → FarFrom fb a
    → s.x < 2 ^ 32
    → (put_text fb font s text).mem a ≡ s.mem a
unfolding put_text
put_text_frame fb font [] s a far h = refl
put_text_frame fb font (ch ∷ text) s a far h =
    put_text_frame fb font text (put_char fb font s ch) a far (put_char-x fb font s ch)
    ∙ put_char_frame fb a far font s ch h

-- The bytes of a text stand at `p`, with a zero behind them, out of the renderer's reach.
unfoldable pub StandsAt : FrameBuffer → Memory → (p : ℕ) → List ℕ → Type 0
StandsAt fb m p [] = FarFrom fb p × (m p ≡ 0)
StandsAt fb m p (ch ∷ text) = FarFrom fb p × (m p ≡ ch) × (0 < ch) × StandsAt fb m (p + 1) text

StandsAt-same :
    (fb : FrameBuffer) (text : List ℕ) (m k : Memory) (p : ℕ)
    → ((a : ℕ) → FarFrom fb a → k a ≡ m a)
    → StandsAt fb m p text
    → StandsAt fb k p text
unfolding StandsAt
StandsAt-same fb [] m k p same (far, e) = (far, same p far ∙ e)
StandsAt-same fb (ch ∷ text) m k p same (far, e, pos, rest) =
    (far, same p far ∙ e, pos, StandsAt-same fb text m k (p + 1) same rest)

-- If a text stands in memory out of the renderer's reach, `Print`, if it may read the text and the
-- byte behind, ends, and comes to putting the characters of the text one by one.
pub print-put_text :
    (fb : FrameBuffer) (font : Font) (text : List ℕ) (s : Screen) (p fuel : ℕ)
    → length text < fuel
    → s.x < 2 ^ 32
    → StandsAt fb s.mem p text
    → print fb font fuel s p ≡ done (put_text fb font s text)
unfolding print put_text StandsAt
print-put_text fb font text s p zero enough h stands = absurd (omega arith)
print-put_text fb font [] s p (suc fuel) enough h (far, e) =
    let stop : (s.mem p == 0) ≡ true = ground arith in rw (print, stop) refl
print-put_text fb font (ch ∷ text) s p (suc fuel) enough h (far, e, pos, rest) =
    let go : (s.mem p == 0) ≡ false = ground arith in
    rw (print, go, e)
      (print-put_text fb font text (put_char fb font s ch) (p + 1) fuel (omega arith)
        (put_char-x fb font s ch)
        (StandsAt-same fb text s.mem (put_char fb font s ch).mem (p + 1)
          (λ a far'. put_char_frame fb a far' font s ch h) rest))
