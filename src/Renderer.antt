-- ===== src/Renderer.antt =====
-- The class `BasicRenderer` of kernel/src/BasicRenderer.cpp, and `Panic` of panic.cpp. The pixels and
-- the font lie in the memory model. The frame buffer and the font do not change: they are parameters.
-- A `char` is a signed byte, kept as a number below 256.
pub mod Pixels
pub mod Glyph
pub mod Reach
pub mod Clear
use mad_os.Base.{
  ℕ, zero, suc, ◌+◌, ◌-◌, ◌*◌, ◌/◌, ◌^◌, true, false, List, [], ◌∷◌, ◌==◌, ltb, if◌then◌else◌, u32,
  ◌>>>◌, bit_and, codes,
}
use mad_os.Base.Run.{Run, done, out_of_fuel, ◌>>=◌}
use mad_os.Memory.{Memory, store32}

pub record FrameBuffer : Type 0 where
  pub base_address : ℕ
  pub buffer_size : ℕ
  pub width : ℕ
  pub height : ℕ
  pub pixels_per_scanline : ℕ

-- `PSF1_FONT`, with the field of its header that is read.
pub record Font : Type 0 where
  pub character_size : ℕ
  pub glyph_buffer : ℕ

-- The memory, `CursorPosition` and `color`.
pub record Screen : Type 0 where
  pub mem : Memory
  pub x : ℕ
  pub y : ℕ
  pub color : ℕ

-- The rounds of a loop from `a` up to `a + n` on an `unsigned int`, whose limit may wrap around.
abbrev pub rounds : (a n : ℕ) → ℕ
rounds a n = u32 (a + n) - a

abbrev pub next_line : Screen → Screen
next_line s = record s { x = 0; y = u32 (s.y + 18) }

-- Where the glyph of a character starts.
unfoldable pub glyph : Font → ℕ → ℕ
glyph font ch =
    if ltb ch 128
    then font.glyph_buffer + ch * font.character_size
    else font.glyph_buffer - (256 - ch) * font.character_size

-- One line of `Clear`, with the rounds left.
unfoldable pub clear_line : ℕ → Memory → (p color : ℕ) → Memory
clear_line zero m p color = m
clear_line (suc left) m p color = clear_line left (store32 m p color) (p + 4) color

module _ (fb : FrameBuffer) where
  -- The address of a pixel; `y * PixelsPerScanline` is an `unsigned int`.
  unfoldable pub pixel : (x y : ℕ) → ℕ
  pixel x y = fb.base_address + 4 * (x + u32 (y * fb.pixels_per_scanline))

  -- The inner loop of `PutChar`, with the rounds left.
  unfoldable pub column_loop : ℕ → Memory → (p left_edge x y color : ℕ) → Memory
  column_loop zero m p left_edge x y color = m
  column_loop (suc left) m p left_edge x y color =
      let m' =
        if ltb 0 (bit_and (m p) (0b10000000 >>> (x - left_edge)))
        then store32 m (pixel x y) color
        else m in
      column_loop left m' p left_edge (x + 1) y color

  -- The outer loop.
  unfoldable pub row_loop : ℕ → Memory → (p x y color : ℕ) → Memory
  row_loop zero m p x y color = m
  row_loop (suc left) m p x y color =
      row_loop left (column_loop (rounds x 8) m p x x y color) (p + 1) x (y + 1) color

  -- The cursor behind a character.
  unfoldable pub advance : Screen → Screen
  advance s =
      let x' = u32 (s.x + 8) in
      if ltb fb.width (u32 (x' + 8))
      then record s { x = 0; y = u32 (s.y + 16) }
      else record s { x = x' }

  -- The inner loop of `RemoveChar`, which goes to the left.
  unfoldable pub erase_columns : ℕ → Memory → (x y : ℕ) → Memory
  erase_columns zero m x y = m
  erase_columns (suc left) m x y = erase_columns left (store32 m (pixel x y) 0x272829) (x - 1) y

  unfoldable pub erase_rows : ℕ → Memory → (count x y : ℕ) → Memory
  erase_rows zero m count x y = m
  erase_rows (suc left) m count x y = erase_rows left (erase_columns count m x y) count x (y + 1)

  unfoldable pub remove_char : Screen → Screen
  remove_char s =
      let x' = u32 (s.x + 2 ^ 32 - 8) in
      record s { mem = erase_rows (rounds s.y 16) s.mem (s.x - x') s.x s.y; x = x' }

  abbrev pub put_pixel : Screen → (x y : ℕ) → Screen
  put_pixel s x y = record s { mem = store32 s.mem (pixel x y) s.color }

  unfoldable pub clear_lines : ℕ → Memory → (v color : ℕ) → Memory
  clear_lines zero m v color = m
  clear_lines (suc left) m v color =
      let bytes_per_scanline = u32 (fb.pixels_per_scanline * 4) in
      clear_lines left
        (clear_line (bytes_per_scanline / 4) m (fb.base_address + bytes_per_scanline * v) color)
        (v + 1) color

  -- `Clear`: the parameter `color` hides the field.
  unfoldable pub clear : Screen → (color : ℕ) → Screen
  clear s color = record s { mem = clear_lines fb.height s.mem 0 color }

module _ (fb : FrameBuffer) (font : Font) where
  unfoldable pub put_char : Screen → ℕ → Screen
  put_char s ch =
      advance fb
        (record s { mem = row_loop fb (rounds s.y 16) s.mem (glyph font ch) s.x s.y s.color })

  -- `Print`, on fuel: the number of bytes that may be read.
  unfoldable pub print : ℕ → Screen → (chr : ℕ) → Run Screen
  print zero s chr = out_of_fuel
  print (suc fuel) s chr = elim (s.mem chr == 0) [
    | true ↦ done s
    | false ↦ print fuel (put_char s (s.mem chr)) (chr + 1)
  ]

  abbrev pub print_nl : ℕ → Screen → (str : ℕ) → Run Screen
  print_nl fuel s str = print fuel s str >>= λ s'. done (next_line s')

  -- What printing a text comes to, the literals of the kernel among them.
  unfoldable pub put_text : Screen → List ℕ → Screen
  put_text s [] = s
  put_text s (ch ∷ text) = put_text (put_char s ch) text

  -- `Panic`
  unfoldable pub panic : ℕ → Screen → (message : ℕ) → Run Screen
  panic fuel s message =
      let s1 = record (clear fb s 0xffffffff) { color = 0; x = 0; y = 0 } in
      let s2 = put_text s1 (codes "Damn! We broke :(") in
      print fuel (next_line (next_line s2)) message
