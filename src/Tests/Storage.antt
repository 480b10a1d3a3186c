-- ===== src/Tests/Storage.antt =====
-- A map of 1024 sectors at 0x4000, of which the sectors 4 and 5 are in use.
use mad_os.Base.{◌+◌, ◌/◌, ◌≡◌, refl, some, ◌==◌, ◌||◌, if◌then◌else◌, arith}
use mad_os.Memory.{Memory}
use mad_os.Storage.{get_free_sector}
use mad_os.Storage.Sectors.{Free, get_free_sector-Free}

abbrev memory : Memory
memory x = if x == 0x4004 || x == 0x4005 then 1 else 0

get_free_sector-Free_example :
    Free memory 0x4000 (1024 / 512 + 2) 1024 (get_free_sector memory 0x4000 1024).1
    × ((get_free_sector memory 0x4000 1024).0 ≡ memory)
    × (get_free_sector (get_free_sector memory 0x4000 1024).0 0x4000 1024
        ≡ get_free_sector memory 0x4000 1024)
get_free_sector-Free_example = get_free_sector-Free memory 0x4000 1024 (omega arith)

sixth : (get_free_sector memory 0x4000 1024).1 ≡ some 6
unfolding get_free_sector mad_os.Storage.free_sector_loop
sixth = refl
