-- ===== src/Ahci/Command.antt =====
-- Reading and writing sectors: `Read` and `Write` of kernel/src/driver/ahci/ahci.cpp. A port of the
-- controller, which also reads and writes memory, is the operations `Device` on a state. The messages
-- on the screen are left out.
use mad_os.Base.{
  ℕ, zero, suc, ◌+◌, ◌-◌, ◌*◌, ◌%◌, ◌^◌, ◌<<◌, ◌>>>◌, Bool, true, false, ◌==◌, if◌then◌else◌, u8,
  u16, u32, bit_and, Option, some, none, List, [], ◌∷◌,
}
use mad_os.Base.Run.{Run, done, fault, out_of_fuel, ◌>>=◌}
use mad_os.Memory.{Memory, store8, store, load32, store32}
use mad_os.MemSet.{memset}
use mad_os.Ahci.{find_cmdslot}

-- The memory, and the registers of a port by their offset.
pub record Device (S : Type 0) : Type 0 where
  pub memory : S → Memory
  pub with_memory : S → Memory → S
  pub read_register : S → (register : ℕ) → S × ℕ
  pub write_register : S → (register value : ℕ) → S

-- The registers of `HBAPort` that are used.
abbrev pub clb : ℕ
clb = 0x00

abbrev pub is : ℕ
is = 0x10

abbrev pub tfd : ℕ
tfd = 0x20

abbrev pub sact : ℕ
sact = 0x34

abbrev pub ci : ℕ
ci = 0x38

-- `HBA_PxIS_TFES`
abbrev pub tfes : ℕ
tfes = 1 << 30

-- A word with the field of `w` bits from bit `lo` on replaced.
abbrev pub with_field : (old lo w v : ℕ) → ℕ
with_field old lo w v = old - (((old >>> lo) % 2 ^ w) << lo) + ((v % 2 ^ w) << lo)

-- Assignments to bytes at offsets from `a`, in order.
unfoldable pub assign : Memory → (a : ℕ) → List (ℕ × ℕ) → Memory
assign m a [] = m
assign m a ((offset, v) ∷ rest) = assign (store8 m (a + offset) v) a rest

-- The command header: `cfl`, `w` and `prdtl`.
unfoldable pub set_header : Memory → (header w prdtl : ℕ) → Memory
set_header m header w prdtl =
    let m1 = store8 m header (with_field (m header) 0 5 5) in
    let m2 = store8 m1 header (with_field (m1 header) 6 1 w) in store 2 m2 (header + 2) prdtl

-- The fields `dba`, `dbau`, and `dbc` of the first entry for the data.
unfoldable pub set_data : Memory → (table buf count : ℕ) → Memory
set_data m table buf count =
    let m1 = store32 m (table + 0x80) (u32 buf) in
    let m2 = store32 m1 (table + 0x84) (u32 (buf >>> 32)) in
    store32 m2 (table + 0x8c)
      (with_field (load32 m2 (table + 0x8c)) 0 22 (u32 (u32 (count << 9) + 2 ^ 32 - 1)))

-- The field `i` of the entry.
unfoldable pub set_interrupt : Memory → (table : ℕ) → Memory
set_interrupt m table = store32 m (table + 0x8c) (with_field (load32 m (table + 0x8c)) 31 1 1)

-- The command of `Read`.
unfoldable pub read_fis : Memory → (table startl starth count : ℕ) → Memory
read_fis m table startl starth count = assign m table (
    (0, 0x27)
    ∷ (1, with_field (m (table + 1)) 7 1 1)
    ∷ (2, 0x25)
    ∷ (4, u8 startl)
    ∷ (5, u8 (startl >>> 8))
    ∷ (6, u8 (startl >>> 16))
    ∷ (8, u8 starth)
    ∷ (9, u8 (starth >>> 8))
    ∷ (10, u8 (starth >>> 16))
    ∷ (7, 1 << 6)
    ∷ (12, bit_and count 0xff)
    ∷ (13, bit_and (count >>> 8) 0xff)
    ∷ [])

-- The command of `Write`.
unfoldable pub write_fis : Memory → (table startl starth count : ℕ) → Memory
write_fis m table startl starth count = assign m table (
    (0, 0x27)
    ∷ (1, with_field (m (table + 1)) 7 1 1)
    ∷ (2, 0x35)
    ∷ (4, u8 startl)
    ∷ (5, u8 (startl >>> 8))
    ∷ (6, u8 (startl >>> 16))
    ∷ (7, 1 << 6)
    ∷ (8, u8 (startl >>> 24))
    ∷ (9, u8 starth)
    ∷ (10, u8 (starth >>> 8))
    ∷ (12, bit_and count 0xff)
    ∷ (13, u8 (count >>> 8))
    ∷ [])

-- What `Read` writes to memory before the command is issued.
unfoldable pub prepare_read : Memory → (header buf startl starth count : ℕ) → Run Memory
prepare_read m header buf startl starth count =
    let m1 = set_header m header 0 1 in
    let table = load32 m1 (header + 8) in
    memset m1 table 0 144 >>= λ m2.
    done (read_fis (set_interrupt (set_data m2 table buf count) table) table startl starth count)

-- What `Write` writes; the number of entries is a `uint16_t`.
unfoldable pub prepare_write : Memory → (header buf startl starth count : ℕ) → Run Memory
prepare_write m header buf startl starth count =
    let prdtl = u16 (u16 (u32 (count + 2 ^ 32 - 1) >>> 4) + 1) in
    let m1 = set_header m header 1 prdtl in
    let table = load32 m1 (header + 8) in
    memset m1 table 0 (144 + prdtl * 16 - 16) >>= λ m2.
    done (write_fis (set_data m2 table buf count) table startl starth count)

module _ {S : Type 0} (device : Device S) where
  -- The loop on `spin`, with the rounds left: whether `spin` has reached its limit.
  unfoldable pub spin_loop : ℕ → S → S × Bool
  spin_loop zero s = ((device.read_register s tfd).0, true)
  spin_loop (suc left) s =
      let (s', status) = device.read_register s tfd in
      let rest = spin_loop left s' in if bit_and status 0x88 == 0 then (s', false) else rest

  -- The loop that waits for completion: whether the command has left `ci`, on fuel.
  unfoldable pub completion_loop : ℕ → S → (slot : ℕ) → Run (S × Bool)
  completion_loop zero s slot = out_of_fuel
  completion_loop (suc fuel) s slot =
      let (s1, issued) = device.read_register s ci in
      let (s2, status) = device.read_register s1 is in
      let rest = completion_loop fuel s2 slot in
      if bit_and issued (1 << slot) == 0
      then done (s1, true)
      else if bit_and status tfes == 0
      then rest
      else done (s2, false)

  -- From the loop on `spin` to the end.
  unfoldable pub issue : (fuel : ℕ) → S → (slot : ℕ) → Run (S × Bool)
  issue fuel s slot =
      let (s1, busy) = spin_loop 1000000 s in
      if busy
      then done (s1, false)
      else (completion_loop fuel (device.write_register s1 ci (1 << slot)) slot >>= λ r.
          let (s3, status) = device.read_register r.0 is in
          done (if r.1 then (s3, bit_and status tfes == 0) else (r.0, false)))

  -- The port's pending interrupts are cleared and a slot is searched.
  unfoldable pub begin : (cap : ℕ) → S → S × Option ℕ
  begin cap s =
      let (s1, active) = device.read_register (device.write_register s is (2 ^ 32 - 1)) sact in
      let (s2, issued) = device.read_register s1 ci in
      (s2, find_cmdslot cap (record { sig = 0; ssts = 0; sact = active; ci = issued }))

  -- `Read`; `cap` is the capability register of the controller.
  unfoldable pub read : (cap fuel : ℕ) → S → (startl starth count buf : ℕ) → Run (S × Bool)
  read cap fuel s startl starth count buf =
      let (s1, found) = begin cap s in
      elim found [
        | none ↦ done (s1, false)
        | some slot ↦
            let (s2, list) = device.read_register s1 clb in
            prepare_read (device.memory s2) (list + slot * 32) buf startl starth count >>= λ m.
            issue fuel (device.with_memory s2 m) slot
      ]

  -- `Write` does not look whether a slot was found: without one, it uses the header in front of the
  -- list, and shifts by `-1`, which is undefined.
  unfoldable pub write : (cap fuel : ℕ) → S → (startl starth count buf : ℕ) → Run (S × Bool)
  write cap fuel s startl starth count buf =
      let (s1, found) = begin cap s in
      let (s2, list) = device.read_register s1 clb in
      elim found [
        | none ↦ prepare_write (device.memory s2) (list - 32) buf startl starth count >>= λ m.
            (if (spin_loop 1000000 (device.with_memory s2 m)).1
              then done ((spin_loop 1000000 (device.with_memory s2 m)).0, false)
              else fault)
        | some slot ↦
            prepare_write (device.memory s2) (list + slot * 32) buf startl starth count >>= λ m.
            issue fuel (device.with_memory s2 m) slot
      ]
