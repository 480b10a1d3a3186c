-- ===== src/Loader/Elf.antt =====
-- The kernel's file: the check of its header, and the loop that loads its segments. The offsets are
-- those of `Elf64_Ehdr` and `Elf64_Phdr` in the ELF format.
use mad_os.Base.{
  ℕ, zero, suc, ◌+◌, ◌-◌, ◌*◌, ◌/◌, ◌^◌, Bool, not, ◌||◌, ◌==◌, ltb, if◌then◌else◌, u32, u64,
}
use mad_os.Base.Run.{Run, done, fault, out_of_fuel, ◌>>=◌}
use mad_os.Memory.{Memory, load, load32, load64}
use mad_os.Loader.Firmware.{Machine, Firmware}
use mad_os.Loader.Compare.{memcmp}

-- The fields of the file's header at an address.
abbrev pub ident_class : Memory → ℕ → ℕ
ident_class m header = m (header + 4)

abbrev pub ident_data : Memory → ℕ → ℕ
ident_data m header = m (header + 5)

abbrev pub e_type : Memory → ℕ → ℕ
e_type m header = load 2 m (header + 16)

abbrev pub e_machine : Memory → ℕ → ℕ
e_machine m header = load 2 m (header + 18)

abbrev pub e_version : Memory → ℕ → ℕ
e_version m header = load32 m (header + 20)

abbrev pub e_entry : Memory → ℕ → ℕ
e_entry m header = load64 m (header + 24)

abbrev pub e_phoff : Memory → ℕ → ℕ
e_phoff m header = load64 m (header + 32)

abbrev pub e_phentsize : Memory → ℕ → ℕ
e_phentsize m header = load 2 m (header + 54)

abbrev pub e_phnum : Memory → ℕ → ℕ
e_phnum m header = load 2 m (header + 56)

-- The condition under which the loader says that the format is bad: an executable for x86-64, of 64
-- bits, little-endian and of version 1 is wanted.
unfoldable pub bad_format : Memory → (header elf_magic : ℕ) → Bool
bad_format m header elf_magic =
    not (memcmp m header elf_magic 4 == 0)
    || not (ident_class m header == 2)
    || not (ident_data m header == 1)
    || not (e_type m header == 2)
    || not (e_machine m header == 62)
    || not (e_version m header == 1)

-- A program header.
pub record Phdr : Type 0 where
  pub p_type : ℕ
  pub p_offset : ℕ
  pub p_paddr : ℕ
  pub p_filesz : ℕ
  pub p_memsz : ℕ

unfoldable pub phdr_at : Memory → ℕ → Phdr
phdr_at m a = record {
  p_type = load32 m a;
  p_offset = load64 m (a + 8);
  p_paddr = load64 m (a + 24);
  p_filesz = load64 m (a + 32);
  p_memsz = load64 m (a + 40);
}

-- `PT_LOAD`
abbrev pub pt_load : ℕ
pt_load = 1

-- `int pages`, passed on as a word of 64 bits.
unfoldable pub pages_of : ℕ → ℕ
pages_of memsz =
    let pages = u32 (u64 (memsz + 4096 - 1) / 4096) in
    if ltb pages (2 ^ 31) then pages else pages + 2 ^ 64 - 2 ^ 32

-- `header.e_phnum * header.e_phentsize`, a product of `int`s, whose overflow is undefined.
unfoldable pub table_size : Memory → (header : ℕ) → Run ℕ
table_size m header =
    let size = e_phnum m header * e_phentsize m header in
    if ltb size (2 ^ 31) then done size else fault

module _ {S : Type 0} (fw : Firmware S) where
  -- The body of the loop, for the program header at `phdr`: each field is read where the code does.
  unfoldable pub load_segment : (kernel phdr : ℕ) → Machine S → Machine S
  load_segment kernel phdr s =
      let h = phdr_at s.mem phdr in
      let (segment, s1) = fw.allocate_pages (pages_of h.p_memsz) h.p_paddr s in
      let s2 = fw.set_position kernel (phdr_at s1.mem phdr).p_offset s1 in
      if h.p_type == pt_load
      then (fw.read kernel (phdr_at s2.mem phdr).p_filesz segment s2).1
      else s

  -- The loop, on fuel; the file's header is read again in every round.
  unfoldable pub load_segments :
      (fuel : ℕ) → (header kernel phdrs phdr : ℕ) → Machine S → Run (Machine S)
  load_segments zero header kernel phdrs phdr s = out_of_fuel
  load_segments (suc fuel) header kernel phdrs phdr s =
      let s' = load_segment kernel phdr s in
      let rest = load_segments fuel header kernel phdrs (phdr + e_phentsize s'.mem header) s' in
      table_size s.mem header >>= λ size. if ltb phdr (phdrs + size) then rest else done s
