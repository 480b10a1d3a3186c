-- ===== src/Ahci/Probe.antt =====
-- `ProbePort` of kernel/src/driver/ahci/ahci.cpp, which maps the controller's registers and calls
-- `PortRebase`. The controller is the registers of its ports and what they hold, on a state.
use mad_os.Ahci.{Port, DeviceType, sata, check_type}
use mad_os.Ahci.Command.{Device}
use mad_os.Ahci.Rebase.{port_rebase}
use mad_os.Frames.{Frames}
use mad_os.Paging.Map.{map_memory}
use mad_os.Base.{
  ℕ, zero, suc, ◌+◌, ◌/◌, ◌^◌, ◌>>>◌, ◌≡◌, refl, sym, ap, ◌∙◌, List, [], ◌∷◌, Bool, true, false,
  ◌&&◌, ◌==◌, if◌then◌else◌, bit_and, Bool-cases, inl, inr, arith, fun_ext,
}
use mad_os.Base.Run.{Run, done, fault, out_of_fuel, ◌>>=◌}
use mad_os.Base.Bits.{bit, bit-lt, bit-div, bit_and_mask}
use native.Mathlib.Nat.{pow-suc, div-div-eq-div-mul}

-- A controller whose registers lie at `abar`: the ports share the machine's memory, and reading what is
-- implemented, the signature and the status of a port changes nothing.
pub record Controller (S : Type 0) : Type 0 where
  pub abar : ℕ
  pub implemented : S → ℕ
  pub port : S → (i : ℕ) → Port
  pub device : (i : ℕ) → Device S

abbrev pub is_sata : DeviceType → Bool
is_sata sata = true
is_sata _ = false

lowest : (pi i : ℕ) → bit_and (pi / 2 ^ i) 1 ≡ bit pi i
unfolding bit
lowest pi i =
    let e : i + 0 ≡ i = omega arith in bit_and_mask 1 (pi / 2 ^ i) ∙ bit-div pi i 0 ∙ ap (bit pi) e

shifted : (pi i : ℕ) → pi / 2 ^ i / 2 ^ 1 ≡ pi / 2 ^ (i + 1)
shifted pi i =
    let e : i + 1 ≡ suc i = omega arith in
    rw e (div-div-eq-div-mul pi (2 ^ i) 2 ∙ ap (λ p. pi / p) (sym (pow-suc 2 i)))

module _ {S : Type 0} (controller : Controller S) (fuel : ℕ) where
  abbrev pub rebase : (i : ℕ) → S × Frames → Run (S × Frames)
  rebase i = port_rebase (controller.device i) fuel

  -- The loop over the ports, with the rounds left.
  unfoldable pub probe_loop : ℕ → (pi i : ℕ) → S × Frames → Run (S × Frames)
  probe_loop zero pi i st = done st
  probe_loop (suc left) pi i st =
      (if bit_and pi 1 == 0
        then done st
        else if is_sata (check_type (controller.port st.0 i))
        then rebase i st
        else done st)
      >>= λ st'. probe_loop left (pi >>> 1) (i + 1) st'

  -- `GlobalPTM.MapMemory(abar, abar)`, with the root of the tables, on the machine's memory.
  unfoldable pub map_registers : (pml4 : ℕ) → S × Frames → Run (S × Frames)
  map_registers pml4 (s, frames) =
      let device = controller.device 0 in
      map_memory (record frames { mem = device.memory s }) pml4 controller.abar controller.abar
      >>= λ t. done (device.with_memory s t.mem, t)

  unfoldable pub probe_port : (pml4 : ℕ) → S × Frames → Run (S × Frames)
  probe_port pml4 st =
      map_registers pml4 st >>= λ st1. probe_loop 32 (controller.implemented st1.0) 0 st1

  -- Port `i` is implemented and shows a drive.
  abbrev pub has_drive : (pi : ℕ) → S → (i : ℕ) → Bool
  has_drive pi s i = (bit pi i == 1) && is_sata (check_type (controller.port s i))

  -- The numbers from `i` on that pass a test, of `left` numbers.
  abbrev pub select : (left i : ℕ) → (ℕ → Bool) → List ℕ
  select zero i test = []
  select (suc left) i test =
      let rest = select left (i + 1) test in if test i then i ∷ rest else rest

  -- `PortRebase` for each port of a list, in order.
  abbrev pub rebase_all : List ℕ → S × Frames → Run (S × Frames)
  rebase_all [] st = done st
  rebase_all (i ∷ is) st = rebase i st >>= rebase_all is

  module _
      (stable : (i j : ℕ) (st st' : S × Frames)
        → rebase j st ≡ done st'
        → check_type (controller.port st'.0 i) ≡ check_type (controller.port st.0 i)) where
    -- The ports behind one that is rebased.
    behind :
        (left pi i : ℕ) (st : S × Frames) (r : Run (S × Frames))
        → rebase i st ≡ r
        → ((st' : S × Frames)
            → probe_loop left (pi / 2 ^ (i + 1)) (i + 1) st'
              ≡ rebase_all (select left (i + 1) (has_drive pi st'.0)) st')
        → (r >>= λ st'. probe_loop left (pi / 2 ^ (i + 1)) (i + 1) st')
          ≡ (r >>= rebase_all (select left (i + 1) (has_drive pi st.0)))
    behind left pi i st fault e next = refl
    behind left pi i st out_of_fuel e next = refl
    behind left pi i st (done st') e next =
        next st'
        ∙ ap (λ test. rebase_all (select left (i + 1) test) st')
            (fun_ext λ j. ap (λ t. (bit pi j == 1) && is_sata t) (stable j i st st' e))

    probe_loop-select :
        (left pi i : ℕ) (st : S × Frames)
        → probe_loop left (pi / 2 ^ i) i st ≡ rebase_all (select left i (has_drive pi st.0)) st
    unfolding probe_loop
    probe_loop-select zero pi i st = refl
    probe_loop-select (suc left) pi i st =
        let next : pi / 2 ^ i / 2 ^ 1 ≡ pi / 2 ^ (i + 1) = shifted pi i in
        elim (Bool-cases (bit pi i == 1)) [
          | inl set ↦
              let on : (bit_and (pi / 2 ^ i) 1 == 0) ≡ false = ground (arith, lowest pi i, set) in
              elim (Bool-cases (is_sata (check_type (controller.port st.0 i)))) [
                | inl drive ↦
                    rw (on, set, drive, next)
                      (behind left pi i st (rebase i st) refl (probe_loop-select left pi (i + 1)))
                | inr other ↦ rw (on, set, other, next) (probe_loop-select left pi (i + 1) st)
              ]
          | inr clear ↦
              let off : (bit_and (pi / 2 ^ i) 1 == 0) ≡ true =
                ground (arith, lowest pi i, clear, bit-lt pi i) in
              rw (off, clear, next) (probe_loop-select left pi (i + 1) st)
        ]

    -- If `PortRebase` of a port leaves the type of every port, `ProbePort` maps the registers, and then
    -- calls `PortRebase` for exactly the ports below 32 that are implemented and show a SATA drive,
    -- each once, in ascending order, and ends as these calls end.
    pub probe_port-rebase_all :
        (pml4 : ℕ) (st : S × Frames)
        → probe_port pml4 st ≡ (
            map_registers pml4 st >>= λ st1.
            rebase_all (select 32 0 (has_drive (controller.implemented st1.0) st1.0)) st1)
    unfolding probe_port
    probe_port-rebase_all pml4 st =
        ap (λ (k : S × Frames → Run (S × Frames)). map_registers pml4 st >>= k)
          (fun_ext λ st1.
            let pi = controller.implemented st1.0 in
            let whole : pi / 2 ^ 0 ≡ pi = omega arith in
            rw whole at (probe_loop-select 32 pi 0 st1))
