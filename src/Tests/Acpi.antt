-- ===== src/Tests/Acpi.antt =====
-- A descriptor at 0x100 whose list at 0x200 has one entry, for a table `MCFG` at 0x300; the signature
-- to look for stands at 0x400.
use mad_os.Base.{
  ℕ, ◌%◌, ◌<◌, ◌≡◌, ◌⊎◌, refl, List, [], ◌∷◌, get_or, arith, ◌==◌, leb, ltb, ◌&&◌, if◌then◌else◌,
  ◌-◌,
}
use mad_os.Base.Run.{done}
use mad_os.Memory.{Memory}
use mad_os.Acpi.{entry, table_length, xsdt_address, revision, find_table}
use mad_os.Acpi.Correct.{IsNamed, IsFirst, entries, byte_sum, find_table-IsFirst}

abbrev list_bytes : List ℕ
list_bytes = 88 ∷ 83 ∷ 68 ∷ 84 ∷ 44 ∷ 0 ∷ 0 ∷ 0 ∷ 1 ∷ 141 ∷ []

abbrev letters : List ℕ
letters = 77 ∷ 67 ∷ 70 ∷ 71 ∷ []

abbrev memory : Memory
memory x =
    if x == 0x10f
    then 2
    else if x == 0x119
    then 2
    else if leb 0x200 x && ltb x 0x20a
    then get_or list_bytes (x - 0x200) 0
    else if x == 0x225
    then 3
    else if leb 0x300 x && ltb x 0x304
    then get_or letters (x - 0x300) 0
    else if leb 0x400 x && ltb x 0x404
    then get_or letters (x - 0x400) 0
    else 0

found : find_table memory 0x100 0x400 ≡ done 0x300
unfolding find_table mad_os.Memory.load mad_os.Acpi.do_checksum mad_os.Acpi.checksum_loop
    mad_os.Acpi.find_loop mad_os.Acpi.same_signature
found = refl

list_at : xsdt_address memory 0x100 ≡ 0x200
unfolding mad_os.Memory.load
list_at = refl

list_length : table_length memory (xsdt_address memory 0x100) ≡ 44
unfolding mad_os.Memory.load
list_length = refl

list_sum :
    byte_sum memory (xsdt_address memory 0x100) (table_length memory (xsdt_address memory 0x100))
      % 256
    ≡ 0
unfolding mad_os.Memory.load byte_sum
list_sum = refl

find_table-IsFirst_example :
    let xsdt = xsdt_address memory 0x100 in
    ((u : ℕ) × (u < entries memory xsdt)
      × IsFirst memory xsdt 0x400 0 u
      × (find_table memory 0x100 0x400 ≡ done (entry memory xsdt u)))
    ⊎ (((u : ℕ) → u < entries memory xsdt → ¬ IsNamed memory (entry memory xsdt u) 0x400)
        × (find_table memory 0x100 0x400 ≡ done 0))
find_table-IsFirst_example =
    find_table-IsFirst memory 0x100 0x400 refl (λ e. omega (arith, list_at, e))
      (omega (arith, list_length)) (omega (arith, list_length)) list_sum
