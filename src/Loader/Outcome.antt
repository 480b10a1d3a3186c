-- ===== src/Loader/Outcome.antt =====
-- Which fonts the boot loader accepts.
use mad_os.Base.{ℕ, ◌+◌, ◌≡◌, ◌≢◌, ◌⊎◌, inl, refl, ◌∙◌, false, ◌==◌, List, u64, arith}
use mad_os.Base.Run.{done}
use mad_os.Memory.{Memory, load64, store64}
use mad_os.Memory.Laws.{load-store, load-store_apart}
use mad_os.Loader.Firmware.{Machine, Firmware}
use mad_os.Loader.Main.{
  psf1_header, psf1_font, glyph_buffer_size, bad_magic, load_file, load_glyphs, load_font,
}

module _ {S : Type 0} (fw : Firmware S) where
  -- The font's structure points to the header and to the glyphs.
  load_glyphs_lem :
      (file h : ℕ) (s : Machine S)
      → (font glyphs : ℕ) × (u : Machine S) × (load_glyphs fw file h s ≡ done (font, u))
        × (load64 u.mem font ≡ u64 h)
        × (load64 u.mem (font + 8) ≡ u64 glyphs)
  unfolding load_glyphs
  load_glyphs_lem file h s =
      let size = glyph_buffer_size s.mem h in
      let (glyphs, s1) = fw.allocate_pool size (fw.set_position file psf1_header s) in
      let (font, s2) = fw.allocate_pool psf1_font (fw.read file size glyphs s1).1 in
      let m = store64 s2.mem font h in
      (
        font,
        glyphs,
        record s2 { mem = store64 m (font + 8) glyphs },
        refl,
        load-store_apart 8 8 m font (font + 8) glyphs (inl (omega arith))
            ∙ load-store 8 s2.mem font h,
        load-store 8 m (font + 8) glyphs,
      )

  good_magic : (m : Memory) (h : ℕ) → (m h ≡ 0x36) ⊎ (m (h + 1) ≡ 0x04) → bad_magic m h ≡ false
  unfolding bad_magic
  good_magic m h right = ground (arith, right)

  -- If the font's file is opened, and one of the two magic bytes of its header is right, then
  -- `LoadFont` returns a pointer, and not `NULL`: the memory there holds the address of the header and
  -- that of the glyphs. So a file in which the other byte is wrong is taken for a font.
  pub load_font-Accepts :
      (directory : ℕ) (path : List ℕ) (image file : ℕ) (s t : Machine S)
      → load_file fw directory path image s ≡ done (file, t)
      → file ≢ 0
      → ((fw.read file psf1_header
              (fw.allocate_pool psf1_header t).0
              (fw.allocate_pool psf1_header t).1).1.mem
            (fw.allocate_pool psf1_header t).0
          ≡ 0x36)
        ⊎ ((fw.read file psf1_header
                (fw.allocate_pool psf1_header t).0
                (fw.allocate_pool psf1_header t).1).1.mem
              ((fw.allocate_pool psf1_header t).0 + 1)
            ≡ 0x04)
      → (font glyphs : ℕ) × (u : Machine S) × (load_font fw directory path image s ≡ done (font, u))
        × (load64 u.mem font ≡ u64 (fw.allocate_pool psf1_header t).0)
        × (load64 u.mem (font + 8) ≡ u64 glyphs)
  unfolding load_font
  load_font-Accepts directory path image file s t opened nonnull right =
      let (h, t1) = fw.allocate_pool psf1_header t in
      let t2 = (fw.read file psf1_header h t1).1 in
      let e : (file == 0) ≡ false = ground arith in
      let (font, glyphs, u, run, header, glyph) = load_glyphs_lem file h t2 in
      (font, glyphs, u, rw (opened, e, good_magic t2.mem h right) run, header, glyph)
