-- ===== src/Tests/Kernel.antt =====
-- The tables for two pages of memory and a frame buffer in pages 4 and 5, on the 32 pages of Mapping.
use mad_os.Base.{ℕ, zero, suc, ◌+◌, ◌*◌, ◌<◌, ◌≡◌, inr, refl, false, arith}
use mad_os.Base.Run.{done}
use mad_os.Frames.{Frames, page_used}
use mad_os.Kernel.{build_tables}
use mad_os.Kernel.Identity.{Covers, build_tables-Covers}
use mad_os.Tests.Mapping.{frames, frames-Sound}

-- Pages 9 to 21 are free.
free_page : (j : ℕ) → j < 13 → page_used frames (9 + j) ≡ false
unfolding mad_os.Bitmap.get
free_page zero h = refl
free_page (suc zero) h = refl
free_page (suc (suc zero)) h = refl
free_page (suc (suc (suc zero))) h = refl
free_page (suc (suc (suc (suc zero)))) h = refl
free_page (suc (suc (suc (suc (suc zero))))) h = refl
free_page (suc (suc (suc (suc (suc (suc zero)))))) h = refl
free_page (suc (suc (suc (suc (suc (suc (suc zero))))))) h = refl
free_page (suc (suc (suc (suc (suc (suc (suc (suc zero)))))))) h = refl
free_page (suc (suc (suc (suc (suc (suc (suc (suc (suc zero))))))))) h = refl
free_page (suc (suc (suc (suc (suc (suc (suc (suc (suc (suc zero)))))))))) h = refl
free_page (suc (suc (suc (suc (suc (suc (suc (suc (suc (suc (suc zero))))))))))) h = refl
free_page (suc (suc (suc (suc (suc (suc (suc (suc (suc (suc (suc (suc zero)))))))))))) h = refl
free_page (suc (suc (suc (suc (suc (suc (suc (suc (suc (suc (suc (suc (suc j))))))))))))) h =
    absurd (omega arith)

build_tables-Covers_example :
    (k : ℕ) × (t : Frames) × (build_tables frames 0x2000 0x4000 0x2000 ≡ done (t, k * 4096))
    × (page_used frames k ≡ false)
    × Covers k 2 0x4000 2 t
build_tables-Covers_example =
    build_tables-Covers (λ j. 9 + j) frames 0x2000 0x4000 0x2000 (λ j. omega arith) frames-Sound
      (omega arith) (omega arith) (omega arith) (λ j lo hi. (free_page j hi, omega arith))
      (λ j. inr (omega arith))
