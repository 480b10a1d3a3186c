-- ===== src/Storage.antt =====
-- The storage of kernel/src/system/storage/storage.cpp: a map of the sectors in memory, and a table of
-- files on the drive, over the driver of the port, the kernel heap and `memset`. The messages on the
-- screen are left out. Waits and the calls of `kmalloc` are on fuel.
pub mod Sectors
use mad_os.Base.{
  ℕ, zero, suc, ◌+◌, ◌-◌, ◌*◌, ◌/◌, ◌^◌, ◌>>>◌, Bool, true, false, ◌==◌, if◌then◌else◌, u32, Option,
  none, some,
}
use mad_os.Base.Run.{Run, done, fault, ◌>>=◌}
use mad_os.Memory.{Memory, store8, load32, load64, store32, store64}
use mad_os.MemSet.{memset}
use mad_os.Ahci.Command.{Device, read, write}
use mad_os.Ahci.Identify.{System, allocate, release, read_disk_size}

-- `sizeof(DirectoryTableEntry)`
abbrev pub directory_table_entry : ℕ
directory_table_entry = 520

-- `e->Blocks[i]`
abbrev pub block : Memory → (entry i : ℕ) → ℕ
block m entry i = load32 m (entry + 8 + 4 * i)

-- `f->Name` and `f->FirstNode` of a `FileMetaData`.
abbrev pub file_name : Memory → ℕ → ℕ
file_name m f = load64 m f

abbrev pub first_node : Memory → ℕ → ℕ
first_node m f = load32 m (f + 8)

-- The sector of the directory table.
abbrev pub table_sector : ℕ → ℕ
table_sector sector_count = u32 (sector_count / 512 + 1)

-- The loop of `GetFreeSector`, with the rounds left. `none` is its end with no value returned, which is
-- undefined. The sector that is found is marked as free again.
unfoldable pub free_sector_loop : ℕ → Memory → (sectors i : ℕ) → Memory × Option ℕ
free_sector_loop zero m sectors i = (m, none)
free_sector_loop (suc left) m sectors i =
    let rest = free_sector_loop left m sectors (i + 1) in
    if m (sectors + i) == 0 then (store8 m (sectors + i) 0, some i) else rest

unfoldable pub get_free_sector : Memory → (sectors sector_count : ℕ) → Memory × Option ℕ
get_free_sector m sectors sector_count =
    let start = sector_count / 512 + 2 in free_sector_loop (sector_count - start) m sectors start

-- The globals `Sectors` and `SectorCount`, beside the drive and the heap.
pub record Storage (S : Type 0) : Type 0 where
  pub system : System S
  pub sectors : ℕ
  pub sector_count : ℕ

-- `cap` is the capability register of the controller; the port is that of `MountedDrivePort`.
module _ {S : Type 0} (device : Device S) (cap fuel : ℕ) where
  abbrev pub memory : System S → Memory
  memory st = device.memory st.port

  abbrev pub with_memory : System S → Memory → System S
  with_memory st m = record st { port = device.with_memory st.port m }

  abbrev pub read_blocks : System S → (sector count buf : ℕ) → Run (System S × Bool)
  read_blocks st sector count buf =
      read device cap fuel st.port sector (sector >>> 32) count buf >>= λ r.
      done (record st { port = r.0 }, r.1)

  abbrev pub write_blocks : System S → (sector count buf : ℕ) → Run (System S × Bool)
  write_blocks st sector count buf =
      write device cap fuel st.port sector (sector >>> 32) count buf >>= λ r.
      done (record st { port = r.0 }, r.1)

  abbrev pub set_memory : System S → (a c n : ℕ) → Run (System S)
  set_memory st a c n = memset (memory st) a c n >>= λ m. done (with_memory st m)

  unfoldable pub initialize_drive : System S → Run (Storage S)
  initialize_drive st = read_disk_size device fuel st >>= λ size.
      let count = u32 size.1 in
      allocate device fuel count size.0 >>= λ buf. set_memory buf.0 buf.1 0 count >>= λ st1.
      read_blocks st1 0 (count / 512) buf.1 >>= λ r.
      done (record { system = r.0; sectors = buf.1; sector_count = count })

  -- `GetFreeSector`, as a step of the machine; its undefined end is a fault.
  unfoldable pub take_sector : Storage S → System S → Run (System S × ℕ)
  take_sector g st =
      let (m, found) = get_free_sector (memory st) g.sectors g.sector_count in
      elim found [ none ↦ fault | some i ↦ done (with_memory st m, i) ]

  -- `FormatDrive`; `system_file` is what the pointer `systemFile` holds, which is never set, and `name`
  -- the address of its text.
  unfoldable pub format_drive : (system_file name : ℕ) → Storage S → Run (Storage S × ℕ)
  unfolding take_sector
  format_drive system_file name g = set_memory g.system g.sectors 0 g.sector_count >>= λ st1.
      write_blocks st1 0 (g.sector_count / 512) g.sectors >>= λ r1.
      allocate device fuel directory_table_entry r1.0 >>= λ t.
      let table = t.1 in
      set_memory t.0 (table + 8) 0 128 >>= λ st2. take_sector g st2 >>= λ a.
      let st3 = with_memory a.0 (store32 (memory a.0) (table + 8) a.1) in
      let st4 = with_memory st3 (store64 (memory st3) system_file name) in
      take_sector g st4 >>= λ b.
      let st5 = with_memory b.0 (store32 (memory b.0) (system_file + 8) b.1) in
      take_sector g st5 >>= λ c.
      let st6 = with_memory c.0 (store32 (memory c.0) (system_file + 12) c.1) in
      write_blocks st6 (table_sector g.sector_count) 1 table >>= λ r2.
      let first = block (memory r2.0) table 0 in
      (if r2.1 then write_blocks r2.0 first 1 system_file else done r2) >>= λ r3.
      done (record g { system = release device r3.0 table }, 1)

  -- The loop of `List`, with the rounds left: every file is read to the same buffer, which holds the
  -- table that the next round goes on with.
  unfoldable pub list_loop : ℕ → (buf list i : ℕ) → System S → Run (System S)
  list_loop zero buf list i st = done st
  list_loop (suc left) buf list i st =
      let sector = block (memory st) buf i in
      let next = read_blocks st sector 1 buf >>= λ r.
      list_loop left buf list (i + 1)
        (if r.1 then with_memory r.0 (store64 (memory r.0) (list + 8 * i) buf) else r.0) in
      if sector == 0 then done st else next

  unfoldable pub list_files : Storage S → Run (Storage S × ℕ)
  unfolding list_loop
  list_files g = allocate device fuel 512 g.system >>= λ l. allocate device fuel 512 l.0 >>= λ b.
      read_blocks b.0 (table_sector g.sector_count) 1 b.1 >>= λ r.
      (if r.1
        then (list_loop 128 b.1 l.1 0 r.0 >>= λ st. done (release device st b.1))
        else done r.0)
      >>= λ st. done (record g { system = st }, l.1)

  -- The loops of `Open` and `WriteBuffer`, with the rounds left: a block's number is taken for the
  -- address of its file, and the addresses of the names are compared. `transfer` is what is done with
  -- a file whose name fits; it says whether the function returns.
  unfoldable pub search_loop :
      ℕ
      → (transfer : System S → ℕ → Run (System S × Bool)) → (name buf i : ℕ) → System S
      → Run (System S × Bool)
  search_loop zero transfer name buf i st = done (st, false)
  search_loop (suc left) transfer name buf i st =
      let f = block (memory st) buf i in
      let rest = λ (t : System S). search_loop left transfer name buf (i + 1) t in
      let hit = transfer st (first_node (memory st) f) >>= λ r.
      (if r.1 then done (r.0, true) else rest r.0) in
      if file_name (memory st) f == name then hit else rest st

  -- The common course of both: a buffer, the table, the search, and the buffer freed in the end.
  unfoldable pub with_table :
      (transfer : ℕ → System S → ℕ → Run (System S × Bool))
      → (name : ℕ) → Storage S
      → Run (Storage S × Option ℕ)
  unfolding search_loop
  with_table transfer name g = allocate device fuel 512 g.system >>= λ b.
      read_blocks b.0 (table_sector g.sector_count) 1 b.1 >>= λ r.
      (if r.1 then search_loop 128 (transfer b.1) name b.1 0 r.0 else done (r.0, false)) >>= λ s.
      done (
        (record g { system = if s.1 then s.0 else (if r.1 then release device s.0 b.1 else s.0) }),
        (if s.1 then some b.1 else none),
      )

  -- `Open`: the buffer with the file's first sector, or `NULL`.
  unfoldable pub open_file : (name : ℕ) → Storage S → Run (Storage S × Option ℕ)
  unfolding with_table
  open_file = with_table (λ buf st sector. read_blocks st sector 1 buf)

  -- `WriteBuffer`; it frees its buffer only where it fails.
  unfoldable pub write_buffer : (name wbuf : ℕ) → Storage S → Run (Storage S × Bool)
  unfolding with_table
  write_buffer name wbuf g =
      with_table (λ buf st sector. write_blocks st sector 1 wbuf) name g >>= λ r.
      done (r.0, elim r.1 [ none ↦ false | some b ↦ true ])
