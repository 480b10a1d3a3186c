-- ===== src/Loader/Segment.antt =====
-- What one round of the loop over the program headers does, for a file as the firmware documents it.
use mad_os.Base.{ℕ, ◌+◌, ◌≤◌, ◌<◌, ◌≡◌, ◌≢◌, ◌⊎◌, inl, inr, ap, ◌∙◌, arith}
use native.Mathlib.Decide.{ℕ_discrete}
use mad_os.Memory.{Memory}
use mad_os.Memory.Laws.{load_cong}
use mad_os.Loader.Firmware.{Machine, Firmware}
use mad_os.Loader.Elf.{Phdr, phdr_at, pt_load, pages_of, load_segment}

-- A file as the firmware documents it. `SetPosition` moves to a place in the file, and `Read` copies
-- the bytes from there to the buffer and writes nothing else, if the file has that many.
-- `AllocatePool` does not move in the file, and writes only to the pool. `AllocatePages` at an address leaves that address in its
-- argument, and memory as it is. All this is granted in the states that `Good` describes, and every
-- call leads to such.
pub record IsFile {S : Type 0} (fw : Firmware S) (file size : ℕ) (bytes : ℕ → ℕ) : Type 1 where
  pub Good : Machine S → Type 0
  pub position : Machine S → ℕ
  pub allocate_same : (pages a : ℕ) (s : Machine S) → Good s → (fw.allocate_pages pages a s).0 ≡ a
  pub allocate_mem :
      (pages a x : ℕ) (s : Machine S) → Good s → (fw.allocate_pages pages a s).1.mem x ≡ s.mem x
  pub allocate_good : (pages a : ℕ) (s : Machine S) → Good s → Good (fw.allocate_pages pages a s).1
  pub seek_position : (p : ℕ) (s : Machine S) → Good s → position (fw.set_position file p s) ≡ p
  pub seek_mem : (p x : ℕ) (s : Machine S) → Good s → (fw.set_position file p s).mem x ≡ s.mem x
  pub seek_good : (p : ℕ) (s : Machine S) → Good s → Good (fw.set_position file p s)
  pub read_inside :
      (n a i : ℕ) (s : Machine S)
      → Good s
      → position s + n ≤ size
      → i < n
      → (fw.read file n a s).1.mem (a + i) ≡ bytes (position s + i)
  pub read_outside :
      (n a x : ℕ) (s : Machine S)
      → Good s
      → position s + n ≤ size
      → (x < a) ⊎ (a + n ≤ x)
      → (fw.read file n a s).1.mem x ≡ s.mem x
  pub pool_outside :
      (n x : ℕ) (s : Machine S)
      → Good s
      → (x < (fw.allocate_pool n s).0) ⊎ ((fw.allocate_pool n s).0 + n ≤ x)
      → (fw.allocate_pool n s).1.mem x ≡ s.mem x
  pub pool_position :
      (n : ℕ) (s : Machine S) → Good s → position (fw.allocate_pool n s).1 ≡ position s
  pub pool_good : (n : ℕ) (s : Machine S) → Good s → Good (fw.allocate_pool n s).1
  pub read_good : (n a : ℕ) (s : Machine S) → Good s → Good (fw.read file n a s).1

-- The byte lies outside what the header has loaded.
abbrev pub Untouched : Phdr → ℕ → Type 0
Untouched h x = (h.p_type ≢ pt_load) ⊎ ((x < h.p_paddr) ⊎ (h.p_paddr + h.p_filesz ≤ x))

pub phdr_at_cong :
    (m k : Memory) (a : ℕ) → ((x : ℕ) → a ≤ x → x < a + 56 → m x ≡ k x) → phdr_at m a ≡ phdr_at k a
unfolding phdr_at
phdr_at_cong m k a same = rw (
  load_cong 4 m k a (λ x lo hi. same x lo (omega arith)),
  load_cong 8 m k (a + 8) (λ x lo hi. same x (omega arith) (omega arith)),
  load_cong 8 m k (a + 24) (λ x lo hi. same x (omega arith) (omega arith)),
  load_cong 8 m k (a + 32) (λ x lo hi. same x (omega arith) (omega arith)),
  load_cong 8 m k (a + 40) (λ x lo hi. same x (omega arith) (omega arith)),
)

module _ {S : Type 0} (fw : Firmware S) (file size : ℕ) (bytes : ℕ → ℕ)
    (f : IsFile fw file size bytes) where
  module _ (a : ℕ) (h : Phdr) (s : Machine S) (here : phdr_at s.mem a ≡ h) (good : f.Good s) where
    -- A header of another kind does nothing.
    skipped : h.p_type ≢ pt_load → load_segment fw file a s ≡ s
    unfolding load_segment
    skipped other = rw here (ground arith)

    abbrev allocated : Machine S
    allocated = (fw.allocate_pages (pages_of h.p_memsz) h.p_paddr s).1

    abbrev seeked : Machine S
    seeked = fw.set_position file h.p_offset allocated

    seeked_mem : (x : ℕ) → seeked.mem x ≡ s.mem x
    seeked_mem x =
        f.seek_mem h.p_offset x _ (f.allocate_good (pages_of h.p_memsz) h.p_paddr s good)
        ∙ f.allocate_mem (pages_of h.p_memsz) h.p_paddr x s good

    -- The program header is still there when it is read again.
    allocated_here : phdr_at allocated.mem a ≡ h
    allocated_here =
        phdr_at_cong allocated.mem s.mem a
          (λ x lo hi. f.allocate_mem (pages_of h.p_memsz) h.p_paddr x s good)
        ∙ here

    seeked_here : phdr_at seeked.mem a ≡ h
    seeked_here = phdr_at_cong seeked.mem s.mem a (λ x lo hi. seeked_mem x) ∙ here

    loaded :
        h.p_type ≡ pt_load
        → load_segment fw file a s
          ≡ (fw.read file h.p_filesz (fw.allocate_pages (pages_of h.p_memsz) h.p_paddr s).0 (
              fw.set_position file h.p_offset
                (fw.allocate_pages (pages_of h.p_memsz) h.p_paddr s).1)).1
    unfolding load_segment
    loaded e = rw (here, allocated_here, seeked_here) (ground arith)

    seeked_good : f.Good seeked
    seeked_good = f.seek_good h.p_offset _ (f.allocate_good (pages_of h.p_memsz) h.p_paddr s good)

    seeked_position : f.position seeked ≡ h.p_offset
    seeked_position =
        f.seek_position h.p_offset _ (f.allocate_good (pages_of h.p_memsz) h.p_paddr s good)

    loaded_at :
        h.p_type ≡ pt_load → load_segment fw file a s ≡ (fw.read file h.p_filesz h.p_paddr seeked).1
    loaded_at e =
        loaded e
        ∙ ap (λ (b : ℕ). (fw.read file h.p_filesz b seeked).1)
            (f.allocate_same (pages_of h.p_memsz) h.p_paddr s good)

    pub step_good : f.Good (load_segment fw file a s)
    step_good = elim (ℕ_discrete h.p_type pt_load) [
      | yes e ↦ rw (loaded_at e) (f.read_good h.p_filesz h.p_paddr seeked seeked_good)
      | no ne ↦ rw (skipped ne) good
    ]

    -- What the file provides for the header, if it is to be loaded.
    module _ (inside : h.p_type ≡ pt_load → h.p_offset + h.p_filesz ≤ size) where
      pub step_inside :
          h.p_type ≡ pt_load
          → (i : ℕ) → i < h.p_filesz
          → (load_segment fw file a s).mem (h.p_paddr + i) ≡ bytes (h.p_offset + i)
      step_inside e i lt =
          let room = inside e in
          rw (loaded_at e) (
            f.read_inside h.p_filesz h.p_paddr i seeked seeked_good (omega (arith, seeked_position))
              lt
            ∙ ap (λ (p : ℕ). bytes (p + i)) seeked_position)

      pub step_outside : (x : ℕ) → Untouched h x → (load_segment fw file a s).mem x ≡ s.mem x
      step_outside x (inl ne) = rw (skipped ne)
      step_outside x (inr out) = elim (ℕ_discrete h.p_type pt_load) [
        | no ne ↦ rw (skipped ne)
        | yes e ↦
            let room = inside e in
            rw (loaded_at e) (
              f.read_outside h.p_filesz h.p_paddr x seeked seeked_good
                (omega (arith, seeked_position)) out
              ∙ seeked_mem x)
      ]
