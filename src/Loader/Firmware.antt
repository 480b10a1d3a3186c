-- ===== src/Loader/Firmware.antt =====
-- What the boot loader calls of the firmware and of the gnu-efi library, on a state of theirs, and
-- commands over it.
use mad_os.Base.{ℕ, List}
use mad_os.Base.Run
use mad_os.Base.Run.{Run, done, fault, out_of_fuel}
use mad_os.Memory.{Memory}

-- The memory, and what the firmware knows of its files, pools, pages and screen.
pub record Machine (S : Type 0) : Type 0 where
  pub services : S
  pub mem : Memory

-- The protocols that are asked of a handle.
pub data Protocol : Type 0 where
  loaded_image : Protocol
  simple_file_system : Protocol

-- What `GetMemoryMap` gives back beside the buffer.
pub record MapAnswer : Type 0 where
  pub status : ℕ
  pub map_size : ℕ
  pub map_key : ℕ
  pub descriptor_size : ℕ

-- The calls; each gives its results, and the machine after it.
pub record Firmware (S : Type 0) : Type 0 where
  pub print : (text values : List ℕ) → Machine S → Machine S
  pub handle_protocol : (handle : ℕ) → Protocol → Machine S → ℕ × Machine S
  pub open_volume : (file_system : ℕ) → Machine S → ℕ × Machine S
  pub open_file : (directory : ℕ) (path : List ℕ) → Machine S → (ℕ × ℕ) × Machine S
  pub get_info : (file size buffer : ℕ) → Machine S → ℕ × Machine S
  pub read : (file size buffer : ℕ) → Machine S → ℕ × Machine S
  pub set_position : (file position : ℕ) → Machine S → Machine S
  pub allocate_pool : (size : ℕ) → Machine S → ℕ × Machine S
  pub allocate_pages : (pages address : ℕ) → Machine S → ℕ × Machine S
  pub locate_gop : Machine S → (ℕ × ℕ) × Machine S
  pub query_mode : (gop mode : ℕ) → Machine S → ℕ × Machine S
  pub set_mode : (gop mode : ℕ) → Machine S → ℕ × Machine S
  pub get_memory_map : (size buffer : ℕ) → Machine S → MapAnswer × Machine S
  pub exit_boot_services : (image map_key : ℕ) → Machine S → Machine S
  pub initialize_lib : (image system_table : ℕ) → Machine S → Machine S
  pub compare_guid : Memory → (guid1 guid2 : ℕ) → ℕ

abbrev pub Cmd : Type 0 → Type 0 → Type 0
Cmd S A = Machine S → Run (A × Machine S)

module _ {S : Type 0} where
  abbrev pub pure : {A : Type 0} → A → Cmd S A
  pure a s = done (a, s)

  -- A read through `NULL`.
  abbrev pub crash : {A : Type 0} → Cmd S A
  crash s = fault

  abbrev pub call : {A : Type 0} → (Machine S → A × Machine S) → Cmd S A
  call f s = done (f s)

  abbrev pub act : (Machine S → Machine S) → Cmd S (Unit {0})
  act f s = done (tt, f s)

  abbrev pub peek : {A : Type 0} → (Memory → A) → Cmd S A
  peek f s = done (f s.mem, s)

  abbrev pub poke : (Memory → Memory) → Cmd S (Unit {0})
  poke f s = done (tt, record s { mem = f s.mem })

  -- A value of the memory whose computation may fail, and a loop of the machine.
  abbrev pub attempt : {A : Type 0} → (Memory → Run A) → Cmd S A
  attempt f s = Run.◌>>=◌ (f s.mem) (λ a. done (a, s))

  abbrev pub loop : (Machine S → Run (Machine S)) → Cmd S (Unit {0})
  loop f s = Run.◌>>=◌ (f s) (λ t. done (tt, t))

  abbrev pub and_then : {A B : Type 0} → Run (A × Machine S) → (A → Cmd S B) → Run (B × Machine S)
  and_then (done r) k = k r.0 r.1
  and_then fault k = fault
  and_then out_of_fuel k = out_of_fuel

  infixl 5 ◌>>=◌ ◌>>◌
  abbrev pub ◌>>=◌ : {A B : Type 0} → Cmd S A → (A → Cmd S B) → Cmd S B
  m >>= k = λ s. and_then (m s) k

  abbrev pub ◌>>◌ : {A B : Type 0} → Cmd S A → Cmd S B → Cmd S B
  m >> n = m >>= λ _. n
