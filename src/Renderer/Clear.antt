-- ===== src/Renderer/Clear.antt =====
-- `Clear` paints the whole frame buffer.
use mad_os.Renderer.{FrameBuffer}
use mad_os.Renderer.Pixels.{shown, Outside}
use mad_os.Base.{ℕ, ◌≡◌, ◌&&◌, leb, ltb, if◌then◌else◌}
use mad_os.Memory.{Memory}

-- The pixels from `i` up to `k` are painted, the rest is as in `m`.
record Painted (fb : FrameBuffer) (size i k c : ℕ) (m t : Memory) : Type 0 where
  pub shows : (j : ℕ) → shown fb t j ≡ (if leb i j && ltb j k then c else shown fb m j)
  pub others : (a : ℕ) → Outside fb size a → t a ≡ m a
