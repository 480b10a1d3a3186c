-- ===== src/Ahci/Outcome.antt =====
-- `Read` with a controller that does what it is told.
use mad_os.Ahci.Command.{Device, clb, is, tfd, ci, tfes, begin}
use mad_os.Ahci.Says.{Says}
use mad_os.Base.{ℕ, zero, suc, ◌<◌, ◌≡◌, ◌≢◌, ◌<<◌, bit_and}
use mad_os.Memory.{Memory}

module _ {S : Type 0} (device : Device S) where
  -- The port is busy for `n` reads of its status, and then idle.
  abbrev pub Idles : (n : ℕ) → S → S → Type 0
  Idles zero s t =
      (bit_and (device.read_register s tfd).1 0x88 ≡ 0) × (t ≡ (device.read_register s tfd).0)
  Idles (suc n) s t =
      (bit_and (device.read_register s tfd).1 0x88 ≢ 0) × Idles n (device.read_register s tfd).0 t

  -- The port works on the command in `slot` for `n` rounds without an error, and then is done.
  abbrev pub Works : (slot n : ℕ) → S → S → Type 0
  Works slot zero s t =
      (bit_and (device.read_register s ci).1 (1 << slot) ≡ 0) × (t ≡ (device.read_register s ci).0)
  Works slot (suc n) s t =
      let after = device.read_register (device.read_register s ci).0 is in
      (bit_and (device.read_register s ci).1 (1 << slot) ≢ 0)
      × (bit_and after.1 tfes ≡ 0)
      × Works slot n after.0 t

  -- The port carries out the command in `slot`: it is idle within a million reads, works on the command
  -- for less than `fuel` rounds, and shows no error.
  pub record CarriesOut (slot fuel : ℕ) (s : S) : Type 0 where
    pub idle_reads : ℕ
    pub idle_soon : idle_reads < 1000000
    pub idle_state : S
    pub idles : Idles idle_reads s idle_state
    pub rounds : ℕ
    pub done_soon : rounds < fuel
    pub done_state : S
    pub works : Works slot rounds (device.write_register idle_state ci (1 << slot)) done_state
    pub no_error : bit_and (device.read_register done_state is).1 tfes ≡ 0

  -- The state when the command is prepared, and the address of the list of commands.
  abbrev pub list_of : (cap : ℕ) → S → S × ℕ
  list_of cap s = device.read_register (begin device cap s).0 clb
