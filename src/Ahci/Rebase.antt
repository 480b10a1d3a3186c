-- ===== src/Ahci/Rebase.antt =====
-- `startCmd`, `stopCmd` and `PortRebase` of kernel/src/driver/ahci/ahci.cpp: a port gets memory for its
-- commands from the page frame allocator. A wait for the port is on fuel.
use mad_os.Base.{
  ℕ, zero, suc, ◌+◌, ◌*◌, ◌≤◌, ◌<<◌, ◌>>>◌, not, ◌==◌, if◌then◌else◌, u32, complement, bit_and,
  bit_or, arith,
}
use mad_os.Base.Run.{Run, done, out_of_fuel, ◌>>=◌}
use mad_os.Memory.{Memory, store, store32}
use mad_os.MemSet.{memset}
use mad_os.Frames.{Frames, request_page}
use mad_os.Ahci.Command.{Device, clb}

abbrev pub clbu : ℕ
clbu = 0x04

abbrev pub fb : ℕ
fb = 0x08

abbrev pub fbu : ℕ
fbu = 0x0c

abbrev pub cmd : ℕ
cmd = 0x18

-- `HBA_PxCMD_ST`, `_FRE`, `_FR` and `_CR`
abbrev pub cmd_st : ℕ
cmd_st = 0x0001

abbrev pub cmd_fre : ℕ
cmd_fre = 0x0010

abbrev pub cmd_fr : ℕ
cmd_fr = 0x4000

abbrev pub cmd_cr : ℕ
cmd_cr = 0x8000

-- The address of the command table `i` in the page that was requested for it.
unfoldable pub table_address : (page i : ℕ) → ℕ
table_address page i = page + (i << 8)

-- The assignments to the command header `i` of a list.
unfoldable pub set_prdtl : Memory → (list i : ℕ) → Memory
set_prdtl m list i = store 2 m (list + 32 * i + 2) 8

unfoldable pub set_table : Memory → (list i address : ℕ) → Memory
set_table m list i address =
    store32 (store32 m (list + 32 * i + 8) (u32 address)) (list + 32 * i + 12)
      (u32 (address >>> 32))

module _ {S : Type 0} (device : Device S) where
  -- `port->r |= bits` and `port->r &= ~bits`
  unfoldable pub set_bits : S → (register bits : ℕ) → S
  set_bits s register bits =
      let (s', v) = device.read_register s register in
      device.write_register s' register (bit_or v bits)

  unfoldable pub clear_bits : S → (register bits : ℕ) → S
  clear_bits s register bits =
      let (s', v) = device.read_register s register in
      device.write_register s' register (bit_and v (complement 32 bits))

  -- The wait of `startCmd`.
  unfoldable pub start_loop : (fuel : ℕ) → S → Run S
  start_loop zero s = out_of_fuel
  start_loop (suc fuel) s =
      let (s', v) = device.read_register s cmd in
      let rest = start_loop fuel s' in if bit_and v cmd_cr == 0 then done s' else rest

  unfoldable pub start_cmd : (fuel : ℕ) → S → Run S
  start_cmd fuel s =
      start_loop fuel s >>= λ s'. done (set_bits (set_bits s' cmd cmd_fre) cmd cmd_st)

  -- The wait of `stopCmd`: the second bit is looked at only if the first is clear.
  unfoldable pub stop_loop : (fuel : ℕ) → S → Run S
  stop_loop zero s = out_of_fuel
  stop_loop (suc fuel) s =
      let (s1, v) = device.read_register s cmd in
      let (s2, w) = device.read_register s1 cmd in
      let again = stop_loop fuel s1 in
      let again' = stop_loop fuel s2 in
      if not (bit_and v cmd_fr == 0)
      then again
      else if not (bit_and w cmd_cr == 0)
      then again'
      else done s2

  unfoldable pub stop_cmd : (fuel : ℕ) → S → Run S
  stop_cmd fuel s = stop_loop fuel (clear_bits (clear_bits s cmd cmd_st) cmd cmd_fre)

  -- A page for the driver: the allocator works on the machine's memory.
  unfoldable pub take_page : S × Frames → (S × Frames) × ℕ
  take_page (s, frames) =
      let (t, page) = request_page (record frames { mem = device.memory s }) in
      ((device.with_memory s t.mem, t), page)

  unfoldable pub clear : S × Frames → (a n : ℕ) → Run (S × Frames)
  clear (s, frames) a n =
      memset (device.memory s) a 0 n >>= λ m. done (device.with_memory s m, frames)

  -- One round of the loop over the command headers.
  unfoldable pub rebase_header : (list i : ℕ) → S × Frames → Run (S × Frames)
  rebase_header list i (s, frames) =
      let s0 = device.with_memory s (set_prdtl (device.memory s) list i) in
      let ((s1, frames'), page) = take_page (s0, frames) in
      let m = set_table (device.memory s1) list i (table_address page i) in
      clear (device.with_memory s1 m, frames') page 256

  unfoldable pub rebase_loop : ℕ → (list i : ℕ) → S × Frames → Run (S × Frames)
  rebase_loop zero list i st = done st
  rebase_loop (suc left) list i st =
      rebase_header list i st >>= λ st'. rebase_loop left list (i + 1) st'

  -- `PortRebase`
  unfoldable pub port_rebase : (fuel : ℕ) → S × Frames → Run (S × Frames)
  port_rebase fuel (s, frames) = stop_cmd fuel s >>= λ s0.
      let ((s1, frames1), list) = take_page (s0, frames) in
      let s2 = device.write_register s1 clb (u32 list) in
      let s3 = device.write_register s2 clbu (u32 (list >>> 32)) in
      let (s4, low) = device.read_register s3 clb in
      clear (s4, frames1) low 1024 >>= λ st.
      let ((s5, frames2), fis) = take_page st in
      let s6 = device.write_register s5 fb (u32 fis) in
      let s7 = device.write_register s6 fbu (u32 (fis >>> 32)) in
      clear (s7, frames2) fis 256 >>= λ st'.
      let (s8, low') = device.read_register st'.0 clb in
      let (s9, high) = device.read_register s8 clbu in
      rebase_loop 32 (low' + (high << 32)) 0 (s9, st'.1) >>= λ st''.
      start_cmd fuel st''.0 >>= λ s10. done (s10, st''.1)

-- The command tables from the sixteenth on lie behind the pages that were requested for them, and the
-- 256 bytes that are cleared in such a page are none of the table's, except for the first table.
pub table_address-outside :
    (page i : ℕ)
    → ((16 ≤ i) → page + 4096 ≤ table_address page i)
      × ((1 ≤ i) → page + 256 ≤ table_address page i)
unfolding table_address
table_address-outside page i = (λ h. omega arith, λ h. omega arith)
