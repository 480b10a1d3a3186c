-- ===== src/Ahci/Identify.antt =====
-- `ReadDiskSize` of kernel/src/driver/ahci/ahci.cpp, with the heap that it takes its buffer from. The
-- heap, the page frame allocator and the port work on one memory, the device's. The wait for the port
-- and the calls of `kmalloc` are on fuel, and the messages on the screen are left out.
use mad_os.Base.{ℕ, zero, suc, ◌+◌, ◌==◌, if◌then◌else◌, u32, [], ◌∷◌}
use mad_os.Base.Run.{Run, done, out_of_fuel, ◌>>=◌}
use mad_os.Memory.{Memory, store8, store, load32, store32}
use mad_os.MemSet.{memset}
use mad_os.Heap.{Heap, mem, with_mem, kmalloc, kfree}
use mad_os.Ahci.Command.{Device, clb, is, ci, with_field, assign}

-- The port and the heap.
pub record System (S : Type 0) : Type 0 where
  pub port : S
  pub heap : Heap

-- The command header of an identification: `cfl`, `w`, `p`, then `prdtl` and `c`, in the code's order.
unfoldable pub set_identify_header : Memory → (header : ℕ) → Memory
set_identify_header m header =
    let m1 = store8 m header (with_field (m header) 0 5 5) in
    let m2 = store8 m1 header (with_field (m1 header) 6 1 0) in
    let m3 = store 2 m2 (header + 2) 1 in
    let m4 = store8 m3 header (with_field (m3 header) 7 1 1) in
    store8 m4 (header + 1) (with_field (m4 (header + 1)) 2 1 1)

-- `dba`, `dbc` and `i` of the first entry for the data.
unfoldable pub set_identify_data : Memory → (table buf : ℕ) → Memory
set_identify_data m table buf =
    let m1 = store32 m (table + 0x80) (u32 buf) in
    let m2 = store32 m1 (table + 0x8c) (with_field (load32 m1 (table + 0x8c)) 0 22 0x1ff) in
    store32 m2 (table + 0x8c) (with_field (load32 m2 (table + 0x8c)) 31 1 1)

-- The command, `ATA_CMD_IDENTIFY`.
unfoldable pub identify_fis : Memory → (table : ℕ) → Memory
identify_fis m table =
    assign m table ((0, 0x27) ∷ (1, with_field (m (table + 1)) 7 1 1) ∷ (2, 0xec) ∷ [])

-- What is written before the command is issued: the memory, and the address for the answer.
unfoldable pub prepare_identify : Memory → (header buf : ℕ) → Run (Memory × ℕ)
prepare_identify m header buf =
    let m1 = set_identify_header m header in
    let table = load32 m1 (header + 8) in
    memset m1 table 0 144 >>= λ m2.
    let m3 = set_identify_data m2 table buf in
    let answer = load32 m3 (table + 0x80) in
    memset m3 answer 0 4096 >>= λ m4.
    memset m4 table 0 20 >>= λ m5. done (identify_fis m5 table, answer)

module _ {S : Type 0} (device : Device S) where
  -- The heap with the memory as the device has it, and back.
  abbrev pub heap_of : System S → Heap
  heap_of st = with_mem st.heap (device.memory st.port)

  abbrev pub with_heap : System S → Heap → System S
  with_heap st h = record { port = device.with_memory st.port (mem h); heap = h }

  unfoldable pub allocate : (fuel size : ℕ) → System S → Run (System S × ℕ)
  allocate fuel size st = kmalloc fuel size (heap_of st) >>= λ r. done (with_heap st r.0, r.1)

  unfoldable pub release : System S → (ptr : ℕ) → System S
  release st ptr = with_heap st (kfree (heap_of st) ptr)

  -- The wait for the command: an error of the port is reported, and waited on.
  unfoldable pub identify_loop : (fuel : ℕ) → S → Run S
  identify_loop zero s = out_of_fuel
  identify_loop (suc fuel) s =
      let (s1, issued) = device.read_register s ci in
      let (s2, status) = device.read_register s1 is in
      let rest = identify_loop fuel s2 in if issued == 0 then done s1 else rest

  -- `ReadDiskSize`; the buffer is freed before the answer in it is read.
  unfoldable pub read_disk_size : (fuel : ℕ) → System S → Run (System S × ℕ)
  read_disk_size fuel st = allocate fuel 0x4096 st >>= λ r.
      let (s1, header) = device.read_register r.0.port clb in
      prepare_identify (device.memory s1) header r.1 >>= λ p.
      identify_loop fuel (device.write_register (device.with_memory s1 p.0) ci 1) >>= λ s2.
      let (s3, status) = device.read_register s2 is in
      let st' = release (record { port = s3; heap = r.0.heap }) r.1 in
      done (st', load32 (device.memory st'.port) (p.1 + 120))
