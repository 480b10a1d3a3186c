-- ===== src/Tests/Renderer.antt =====
-- The renderer on a frame buffer of 64 by 64 pixels.
use mad_os.Base.{◌+◌, ◌*◌, ◌≡◌, inl, refl, ◌==◌, if◌then◌else◌, codes, arith}
use mad_os.Base.Run.{done}
use mad_os.Memory.{Memory, load}
use mad_os.Renderer.{FrameBuffer, Font, Screen, glyph, put_char, put_text, print}
use mad_os.Renderer.Pixels.{shown}
use mad_os.Renderer.Glyph.{Draws, put_char-Draws}
use mad_os.Renderer.Reach.{StandsAt, print-put_text}

abbrev pub frame_buffer : FrameBuffer
frame_buffer = record {
  base_address = 0x100000;
  buffer_size = 0x4000;
  width = 64;
  height = 64;
  pixels_per_scanline = 64;
}

abbrev pub font : Font
font = record { character_size = 16; glyph_buffer = 0x1000 }

-- The first row of the letter `A` and the text `Hi` stand in memory.
abbrev memory : Memory
memory a =
    if a == 0x1410 then 0x18 else if a == 0x3000 then b'H' else if a == 0x3001 then b'i' else 0

abbrev screen : Screen
screen = record { mem = memory; x = 8; y = 16; color = 0xffffffff }

put_char-Draws_example :
    Draws frame_buffer font screen b'A' 4096 (put_char frame_buffer font screen b'A')
unfolding glyph
put_char-Draws_example =
    put_char-Draws frame_buffer font screen b'A' 4096 (omega arith) (omega arith) (omega arith)
      (omega arith) (omega arith) (omega arith) (λ r lt. inl (omega arith))

-- Only the two middle pixels of the first row are set.
middle_pixel :
    shown frame_buffer (put_char frame_buffer font screen b'A').mem (11 + 16 * 64) ≡ 0xffffffff
unfolding glyph
middle_pixel = put_char-Draws_example.shows 11 16 (omega arith)

left_pixel : shown frame_buffer (put_char frame_buffer font screen b'A').mem (8 + 16 * 64) ≡ 0
unfolding glyph load
left_pixel = put_char-Draws_example.shows 8 16 (omega arith)

print-put_text_example :
    print frame_buffer font 3 screen 0x3000 ≡ done (put_text frame_buffer font screen (codes "Hi"))
unfolding StandsAt
print-put_text_example =
    print-put_text frame_buffer font (codes "Hi") screen 0x3000 3 (omega arith) (omega arith) (
      inl (omega arith),
      refl,
      omega arith,
      (inl (omega arith), refl, omega arith, (inl (omega arith), refl)),
    )
