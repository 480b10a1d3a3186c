-- ===== src/Loader/Main.antt =====
-- `efi_main` of the boot loader, and the functions that it calls.
use mad_os.Base.{
  ℕ, zero, suc, ◌+◌, ◌*◌, ◌^◌, Bool, not, ◌&&◌, ◌==◌, leb, if◌then◌else◌, Option, none, some, List,
  [], ◌∷◌, codes,
}
use mad_os.Memory.{Memory, load32, load64, store64}
use mad_os.Loader.Firmware.{
  loaded_image, simple_file_system, Firmware, Cmd, pure, crash, call, act, peek, poke, attempt,
  loop, ◌>>=◌, ◌>>◌,
}
use mad_os.Loader.Compare.{strcmp}
use mad_os.Loader.Elf.{e_entry, e_phoff, bad_format, table_size, load_segments}

pub record FrameBuffer : Type 0 where
  pub base_address : ℕ
  pub buffer_size : ℕ
  pub width : ℕ
  pub height : ℕ
  pub pixels_per_scanline : ℕ

-- `EFI_ERROR`
abbrev pub is_error : ℕ → Bool
is_error status = leb (2 ^ 63) status

-- `EFI_NOT_STARTED`
abbrev pub not_started : ℕ
not_started = 2 ^ 63 + 19

-- `gop->Mode`
abbrev pub gop_mode : Memory → ℕ → ℕ
gop_mode m gop = load64 m (gop + 24)

-- The frame buffer that the mode structure and its `Info` describe.
unfoldable pub frame_buffer_of : Memory → ℕ → FrameBuffer
frame_buffer_of m gop =
    let mode = gop_mode m gop in
    let info = load64 m (mode + 8) in
    record {
      base_address = load64 m (mode + 24);
      buffer_size = load64 m (mode + 32);
      width = load32 m (info + 4);
      height = load32 m (info + 8);
      pixels_per_scanline = load32 m (info + 32);
    }

-- `sizeof(PSF1_Header)` and `sizeof(PSF1_FONT)`
abbrev pub psf1_header : ℕ
psf1_header = 4

abbrev pub psf1_font : ℕ
psf1_font = 16

-- `characterSize * 256`, or twice that in font mode 1.
unfoldable pub glyph_buffer_size : Memory → (font_header : ℕ) → ℕ
glyph_buffer_size m h = if m (h + 2) == 1 then m (h + 3) * 512 else m (h + 3) * 256

-- The test that `LoadFont` makes of the two magic bytes.
unfoldable pub bad_magic : Memory → (font_header : ℕ) → Bool
bad_magic m h = not (m h == 0x36) && not (m (h + 1) == 0x04)

-- Where the compiler has put the locals whose addresses are taken and the literals, what the locals
-- that are not set hold, and the arguments of `efi_main`.
pub record Places : Type 0 where
  pub image : ℕ
  pub system_table : ℕ
  pub header : ℕ
  pub file_info : ℕ
  pub elf_magic : ℕ
  pub rsd_ptr : ℕ
  pub file_info_size : ℕ
  pub map_size : ℕ
  pub acpi_guid : ℕ

-- What the kernel is started with, and where.
pub record Handover : Type 0 where
  pub entry : ℕ
  pub frame_buffer : Option FrameBuffer
  pub font : ℕ
  pub memory_map : ℕ
  pub map_size : ℕ
  pub descriptor_size : ℕ
  pub rsdp : ℕ

-- `acpiGuid` is set to `ACPI_20_TABLE_GUID`, 8868e871-e4f1-11d3-bc22-0080c73c8881.
unfoldable pub set_acpi_guid : Memory → (acpi_guid : ℕ) → Memory
set_acpi_guid m acpi_guid =
    store64 (store64 m acpi_guid 0x11d3e4f18868e871) (acpi_guid + 8) 0x81883cc7800022bc

module _ {S : Type 0} (fw : Firmware S) where
  unfoldable pub initialize_gop : Cmd S (Option FrameBuffer)
  initialize_gop = do
    (status, gop) ← call fw.locate_gop
    mode ← peek (λ m. gop_mode m gop)
    number ← peek (λ m. if mode == 0 then 0 else load32 m (mode + 4))
    if is_error status
        then act (fw.print (codes "Unable to locate GOP\n\r") []) >> pure none
        else (do
          queried ← call (fw.query_mode gop number)
          answer ← if queried == not_started then call (fw.set_mode gop 0) else pure queried
          now ← peek (λ m. gop_mode m gop)
          values ← peek (λ m. load32 m (now + 4) ∷ load32 m now ∷ [])
          if is_error answer
              then act (fw.print (codes "Unable to get GOP Native mode\n\r") []) >> pure none
              else if now == 0
              then crash
              else (do
                act (fw.print (codes "Native Mode: %d, Max Modes: %d\n\r") values)
                buffer ← peek (λ m. frame_buffer_of m gop)
                pure (some buffer)))

  unfoldable pub load_file : (directory : ℕ) (path : List ℕ) (image : ℕ) → Cmd S ℕ
  load_file directory path image = do
    protocol ← call (fw.handle_protocol image loaded_image)
    device ← peek (λ m. load64 m (protocol + 24))
    file_system ← call (fw.handle_protocol device simple_file_system)
    root ← if directory == 0 then call (fw.open_volume file_system) else pure directory
    (status, file) ← call (fw.open_file root path)
    pure (if status == 0 then file else 0)

  -- What `LoadFont` does with the header that it has read.
  unfoldable pub load_glyphs : (file font_header : ℕ) → Cmd S ℕ
  load_glyphs file font_header = do
    size ← peek (λ m. glyph_buffer_size m font_header)
    act (fw.set_position file psf1_header)
    glyphs ← call (fw.allocate_pool size)
    _ ← call (fw.read file size glyphs)
    font ← call (fw.allocate_pool psf1_font)
    poke (λ m. store64 m font font_header)
    poke (λ m. store64 m (font + 8) glyphs)
    pure font

  -- The pointer is 0 for `NULL`.
  unfoldable pub load_font : (directory : ℕ) (path : List ℕ) (image : ℕ) → Cmd S ℕ
  load_font directory path image = do
    file ← load_file directory path image
    if file == 0 then act (fw.print (codes "Could not load Font\n\r") []) >> pure 0 else (do
      font_header ← call (fw.allocate_pool psf1_header)
      _ ← call (fw.read file psf1_header font_header)
      bad ← peek (λ m. bad_magic m font_header)
      first ← peek (λ m. m font_header)
      if bad
          then act (fw.print (codes "Magic Number did not match %d\n\r") (first ∷ [])) >> pure 0
          else load_glyphs file font_header)

  -- The loop over the configuration tables, with the rounds left. `table` stands for `configTable`,
  -- which moves while it is indexed by `i`.
  unfoldable pub rsdp_loop : ℕ → Memory → (acpi_guid rsd_ptr table i rsdp : ℕ) → ℕ
  rsdp_loop zero m acpi_guid rsd_ptr table i rsdp = rsdp
  rsdp_loop (suc left) m acpi_guid rsd_ptr table i rsdp =
      let vendor_table = load64 m (table + 16) in
      let differs = not (fw.compare_guid m (table + 24 * i) acpi_guid == 0) in
      let signed = not (strcmp m rsd_ptr vendor_table 8 == 0) in
      rsdp_loop left m acpi_guid rsd_ptr (table + 24) (i + 1)
        (if differs && signed then vendor_table else rsdp)

  -- `NumberOfTableEntries` and `ConfigurationTable` of the system table.
  unfoldable pub find_rsdp : Memory → (system_table acpi_guid rsd_ptr : ℕ) → ℕ
  unfolding rsdp_loop
  find_rsdp m system_table acpi_guid rsd_ptr =
      rsdp_loop (load64 m (system_table + 104)) m acpi_guid rsd_ptr (load64 m (system_table + 112))
        0 0

  -- From the program headers to the kernel's segments in memory.
  unfoldable pub load_kernel : (fuel : ℕ) → Places → (kernel : ℕ) → Cmd S (Unit {0})
  load_kernel fuel p kernel = do
    offset ← peek (λ m. e_phoff m p.header)
    act (fw.set_position kernel offset)
    size ← attempt (λ m. table_size m p.header)
    phdrs ← call (fw.allocate_pool size)
    _ ← call (fw.read kernel size phdrs)
    loop (load_segments fw fuel p.header kernel phdrs phdrs)

  -- What follows the loading: the frame buffer, the font, the memory map and the root pointer.
  unfoldable pub prepare : Places → (entry : ℕ) → Cmd S Handover
  prepare p entry = do
    frame_buffer ← initialize_gop
    font ← load_font 0 (codes "font16.psf") p.image
    size ← peek (λ m. m (load64 m font + 3))
    act (
        if font == 0
        then fw.print (codes "Failed to Load Font\n\r") []
        else fw.print (codes "Font Loaded with size %d\n\r") (size ∷ []))
    first ← call (fw.get_memory_map p.map_size 0)
    map ← call (fw.allocate_pool first.map_size)
    second ← call (fw.get_memory_map first.map_size map)
    act (
        if is_error second.status
        then fw.print (codes "Failed to get memory map\n\r") []
        else (λ s. s))
    poke (λ m. set_acpi_guid m p.acpi_guid)
    rsdp ← peek (λ m. find_rsdp m p.system_table p.acpi_guid p.rsd_ptr)
    act (fw.exit_boot_services p.image second.map_key)
    pure (record {
      entry = entry;
      frame_buffer = frame_buffer;
      font = font;
      memory_map = map;
      map_size = second.map_size;
      descriptor_size = second.descriptor_size;
      rsdp = rsdp;
    })

  -- Up to the call of `KernelStart`; the loop over the program headers is on fuel. A call through the
  -- pointer `Kernel` where it is `NULL` is undefined. The second `GetInfo` is given the address of the local pointer.
  unfoldable pub efi_main : (fuel : ℕ) → Places → Cmd S Handover
  efi_main fuel p = do
    act (fw.initialize_lib p.image p.system_table)
    kernel ← load_file 0 (codes "kernel.elf") p.image
    act (
        if kernel == 0
        then fw.print (codes "Not loaded yet \n\r") []
        else fw.print (codes "Kernel File Successfully Loaded \n\r") [])
    if kernel == 0 then crash else pure tt
    info_size ← call (fw.get_info kernel p.file_info_size 0)
    _ ← call (fw.allocate_pool info_size)
    _ ← call (fw.get_info kernel info_size p.file_info)
    _ ← call (fw.read kernel 64 p.header)
    bad ← peek (λ m. bad_format m p.header p.elf_magic)
    act (
        if bad
        then fw.print (codes "Bad Kernel Format \n\r") []
        else fw.print (codes "Kernel header verified \n\r") [])
    load_kernel fuel p kernel
    entry ← peek (λ m. e_entry m p.header)
    act (fw.print (codes "Kernel Info Loaded successfully\n\r") [])
    prepare p entry
