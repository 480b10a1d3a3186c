-- ===== src/Tests/Ahci.antt =====
-- A port with three commands in use, and commands for some sectors.
use mad_os.Base.{true, ℕ, ◌-◌, ◌%◌, ◌<◌, ◌≡◌, ◌⊎◌, refl, some, none, inl}
use mad_os.Ahci.{Port, sata, no_device, check_type, find_cmdslot, slot_loop}
use mad_os.Base.{if◌then◌else◌, ◌==◌, arith}
use mad_os.Base.Run.{done, ◌>>=◌}
use mad_os.Memory.{Memory, load}
use mad_os.Ahci.Command.{prepare_read}
use mad_os.Ahci.Command.{Device}
use mad_os.Ahci.Heads.{IsSlot}
use mad_os.Ahci.Says.{Says, prepare_read-Says}
use mad_os.Base.{[], ◌∷◌}
use mad_os.Base.Bits.{bit}
use mad_os.Ahci.Probe.{
  Controller, map_registers, probe_port, select, has_drive, rebase_all, probe_port-rebase_all,
}
use mad_os.Frames.{Frames}
use mad_os.Ahci.Slots.{IsBusy, slots_of, find_cmdslot_lem}

abbrev port : Port
port = record { sig = 0x101; ssts = 0x113; sact = 0b101; ci = 0b10 }

is_sata : check_type port ≡ sata
unfolding check_type
is_sata = refl

asleep : check_type (record port { ssts = 0x213 }) ≡ no_device
unfolding check_type
asleep = refl

fourth_slot : find_cmdslot 0x1f00 port ≡ some 3
unfolding find_cmdslot slot_loop
fourth_slot = refl

find_cmdslot_lem_example :
    ((k : ℕ) × (k < (slots_of 0x1f00 - 1) % 16)
      × (find_cmdslot 0x1f00 port ≡ some k)
      × ¬ IsBusy port k
      × ((j : ℕ) → j < k → IsBusy port j))
    ⊎ ((find_cmdslot 0x1f00 port ≡ none)
        × ((j : ℕ) → j < (slots_of 0x1f00 - 1) % 16 → IsBusy port j))
find_cmdslot_lem_example = find_cmdslot_lem 0x1f00 port

-- Of 32 slots, fifteen are in use, and none is found.
half_in_use : find_cmdslot 0x1f00 (record port { ci = 0x7fff }) ≡ none
unfolding find_cmdslot slot_loop
half_in_use = refl

-- A command header at 0x1000, whose command table is at 0x2000.
abbrev memory : Memory
memory a = if a == 0x1009 then 0x20 else 0

IsSlot-at : (size : ℕ) → size < 0x1000 → IsSlot memory 0x1000 size
unfolding load
IsSlot-at size small = record { packet_off = refl; flags_off = refl; apart = inl (omega arith) }

-- Sector 2 ^ 24: `Read` asks for sector 0, `Write` for the right one.
wrong_sector :
    (m' : Memory) × (prepare_read memory 0x1000 0x3000 0x1000000 0 1 ≡ done m')
    × Says m' 0x1000 0x2000 0 1 0x25 0 1 0x3000
unfolding load
wrong_sector =
    prepare_read-Says memory 0x1000 0x3000 0x1000000 0 1 (omega arith) (omega arith) (omega arith)
      (IsSlot-at 144 (omega arith))

-- A port that is done at once; its commands are listed at 0x1000.
abbrev quick : Device Memory
quick = record {
  memory = λ m. m;
  with_memory = λ old m. m;
  read_register = λ m register. (m, if register == 0 then 0x1000 else 0);
  write_register = λ m register value. m;
}

-- Ports 0, 1 and 3 are implemented, and ports 1, 2 and 3 show a drive; the first eight pages are managed.
abbrev controller : Controller Memory
controller = record {
  abar = 0xfebf1000;
  implemented = λ s. 0b1011;
  port = λ s i. if i == 0 then record port { ssts = 0 } else port;
  device = λ i. quick;
}

abbrev frames : Frames
frames = record {
  mem = memory;
  page_bitmap = record { size = 1; buffer = 0x4000 };
  allocated_memory = 0;
  reserved_memory = 0;
  free_memory = 0x8000;
  is_initialized = true;
  bitmap_index = 0;
  memory_map_size = 0;
}

the_drives : select controller 10 32 0 (has_drive controller 10 0b1011 memory) ≡ 1 ∷ 3 ∷ []
unfolding bit check_type
the_drives = refl

probe_port-rebase_all_example : probe_port controller 10 0x5000 (memory, frames) ≡ (
    map_registers controller 10 0x5000 (memory, frames) >>= λ st1.
    rebase_all controller 10 (select controller 10 32 0 (has_drive controller 10 0b1011 st1.0)) st1)
probe_port-rebase_all_example =
    probe_port-rebase_all controller 10 (λ i j st st' e. refl) 0x5000 (memory, frames)
