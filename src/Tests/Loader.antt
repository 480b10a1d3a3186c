-- ===== src/Tests/Loader.antt =====
-- A firmware with one file, of 122 bytes: a program header at 64, for the two bytes at 120. Its state
-- is the position in the file.
use mad_os.Base.{
  ℕ, ◌+◌, ◌-◌, ◌≤◌, ◌<◌, ◌≡◌, ◌⊎◌, inl, inr, refl, ◌&&◌, ◌==◌, leb, ltb, if◌then◌else◌, [], ◌∷◌,
  All, codes, arith,
}
use mad_os.Base.Run.{done}
use mad_os.Memory.{Memory, load, load64, store, store8, store64}
use mad_os.Loader.Firmware.{Machine, Firmware}
use mad_os.Loader.Compare.{memcmp, strcmp, Compares, same, below, above, memcmp-Compares}
use mad_os.Loader.Elf.{Phdr, phdr_at}
use mad_os.Loader.Segment.{IsFile}
use mad_os.Loader.Place.{Beside, Within, Placed}
use mad_os.Loader.Main.{Places, set_acpi_guid, load_kernel, load_file, find_rsdp}
use mad_os.Loader.Image.{load_kernel-Placed}
use mad_os.Loader.Rsdp.{Finds, Match, ComparesGuids, vendor_table, find_rsdp-Finds}

abbrev disk : ℕ → ℕ
disk x =
    if x == 64
    then 1
    else if x == 72
    then 120
    else if x == 90
    then 0x10
    else if x == 96
    then 2
    else if x == 104
    then 2
    else if x == 118
    then 0x36
    else if x == 120
    then 7
    else if x == 121
    then 9
    else 0

-- `status` is that of every `Open`.
abbrev firmware : ℕ → Firmware ℕ
firmware status = record {
  print = λ text values s. s;
  handle_protocol = λ handle protocol s. (0x700, s);
  open_volume = λ file_system s. (1, s);
  open_file = λ directory path s. ((status, 2), s);
  get_info = λ file size buffer s. (80, s);
  read = λ file n a s. (
    n,
    record s {
      mem = λ x. if leb a x && ltb x (a + n) then disk (s.services + (x - a)) else s.mem x;
    },
  );
  set_position = λ file position s. record s { services = position };
  allocate_pool = λ size s. (0x1000, s);
  allocate_pages = λ pages address s. (address, s);
  locate_gop = λ s. ((0, 0x800), s);
  query_mode = λ gop mode s. (0, s);
  set_mode = λ gop mode s. (0, s);
  get_memory_map =
      λ size buffer s. (record { status = 0; map_size = 48; map_key = 1; descriptor_size = 48 }, s);
  exit_boot_services = λ image map_key s. s;
  initialize_lib = λ image table s. s;
  compare_guid = λ m a b. memcmp m a b 16;
}

-- The file's header at 0x500, as far as the loading reads it.
abbrev memory : Memory
memory x = if x == 0x520 then 64 else if x == 0x536 then 56 else if x == 0x538 then 1 else 0

abbrev machine : Machine ℕ
machine = record { services = 0; mem = memory }

abbrev places : Places
places = record {
  image = 1;
  system_table = 0x600;
  header = 0x500;
  file_info = 0x480;
  elf_magic = 0x490;
  rsd_ptr = 0x498;
  file_info_size = 0;
  map_size = 0;
  acpi_guid = 0x4a0;
}

abbrev segment : Phdr
segment = record { p_type = 1; p_offset = 120; p_paddr = 0x100000; p_filesz = 2; p_memsz = 2 }

read_there :
    (n a i : ℕ) (s : Machine ℕ)
    → i < n
    → ((firmware 0).read 2 n a s).1.mem (a + i) ≡ disk (s.services + i)
read_there n a i s lt = let e : a + i - a ≡ i = omega arith in rw e (ground arith)

read_elsewhere :
    (n a x : ℕ) (s : Machine ℕ)
    → (x < a) ⊎ (a + n ≤ x)
    → ((firmware 0).read 2 n a s).1.mem x ≡ s.mem x
read_elsewhere n a x s out = ground (arith, out)

abbrev disk_file : IsFile (firmware 0) 2 122 disk
disk_file = record {
  Good = λ s. Unit {0};
  position = λ s. s.services;
  allocate_same = λ pages a s good. refl;
  allocate_mem = λ pages a x s good. refl;
  allocate_good = λ pages a s good. tt;
  seek_position = λ p s good. refl;
  seek_mem = λ p x s good. refl;
  seek_good = λ p s good. tt;
  read_inside = λ n a i s good room lt. read_there n a i s lt;
  read_outside = λ n a x s good room out. read_elsewhere n a x s out;
  pool_outside = λ n x s good out. refl;
  pool_position = λ n s good. refl;
  pool_good = λ n s good. tt;
  read_good = λ n a s good. tt;
}

header_Beside : Beside 0x500 64 segment
header_Beside x lo hi = inr (inl (omega arith))

header_fields : (load64 memory 0x520 ≡ 64) × (load 2 memory 0x536 ≡ 56) × (load 2 memory 0x538 ≡ 1)
unfolding load
header_fields = (refl, refl, refl)

disk_table : phdr_at disk 64 ≡ segment
unfolding phdr_at load
disk_table = refl

segment_Within : Within 122 segment
segment_Within e = omega arith

pool_Beside : Beside 0x1000 56 segment
pool_Beside x lo hi = inr (inl (omega arith))

memcmp-Compares_example : Compares disk 119 120 0 3 (memcmp disk 119 120 3)
memcmp-Compares_example = memcmp-Compares disk 119 120 3

load_kernel-Placed_example :
    (t : Machine ℕ) × (load_kernel (firmware 0) 2 places 2 machine ≡ done (tt, t))
    × All (Placed disk t.mem) (segment ∷ [])
load_kernel-Placed_example =
    load_kernel-Placed (firmware 0) 2 122 disk disk_file 2 places machine 56 (segment ∷ [])
      (omega arith) tt header_fields.2 header_fields.1 (omega arith) (omega arith)
      (rw header_fields.0 (disk_table, tt)) (omega (arith, header_fields.0)) (segment_Within, tt)
      (tt, tt) (header_Beside, tt) (λ t good. (inl (omega arith), (pool_Beside, tt)))

-- The firmware compares GUIDs as documented.
compared_same :
    (m : Memory) (a b r : ℕ)
    → Compares m a b 0 16 r
    → ((i : ℕ) → i < 16 → m (a + i) ≡ m (b + i))
    → r ≡ 0
compared_same m a b r (same all e) eq = e
compared_same m a b r (below k lt before d e) eq = let at = eq k lt in absurd (omega arith)
compared_same m a b r (above k lt before d e) eq = let at = eq k lt in absurd (omega arith)

compared_zero :
    (m : Memory) (a b r : ℕ)
    → Compares m a b 0 16 r
    → r ≡ 0
    → (i : ℕ) → i < 16
    → m (a + i) ≡ m (b + i)
compared_zero m a b r (same all e) z i lt = all i (omega arith) lt
compared_zero m a b r (below k lt before d e) z i h = absurd (omega arith)
compared_zero m a b r (above k lt before d e) z i h = absurd (omega arith)

abbrev guids : ComparesGuids (firmware 0)
guids = record {
  same_zero = λ m a b eq. compared_same m a b _ (memcmp-Compares m a b 16) eq;
  zero_same = λ m a b z. compared_zero m a b _ (memcmp-Compares m a b 16) z;
}

-- Three configuration tables from 0x800 on, of which the first has the GUID of ACPI 2.0 and the table at
-- 0x900; the two others have a table at 0xa00. The tables start with the letter of the signature.
abbrev with_tables : Memory
with_tables =
    let m = set_acpi_guid (set_acpi_guid (λ x. 0) 0x4a0) 0x800 in
    let m1 = store64 (store64 m 0x668 3) 0x670 0x800 in
    let m2 = store64 (store64 (store64 m1 0x810 0x900) 0x828 0xa00) 0x840 0xa00 in
    store64 (store64 (store64 m2 0x498 0x52) 0x900 0x52) 0xa00 0x52

-- The table of the entry that is not ACPI's is handed over.
found : find_rsdp (firmware 0) with_tables 0x600 0x4a0 0x498 ≡ 0xa00
unfolding find_rsdp load set_acpi_guid store store8 memcmp strcmp
found = refl

find_rsdp-Finds_example :
    Finds
      (Match with_tables 0x4a0 0x498 (load64 with_tables 0x670))
      (vendor_table with_tables (load64 with_tables 0x670))
      0
      (load64 with_tables 0x668)
      0
      (find_rsdp (firmware 0) with_tables 0x600 0x4a0 0x498)
find_rsdp-Finds_example = find_rsdp-Finds (firmware 0) guids with_tables 0x600 0x4a0 0x498

-- A machine that reads its file from 118 on: the first byte is right for a font, the second is not.
abbrev font_machine : Machine ℕ
font_machine = record { services = 118; mem = memory }

font_opened : load_file (firmware 0) 0 (codes "font16.psf") 1 font_machine ≡ done (2, font_machine)
unfolding load_file
font_opened = refl
