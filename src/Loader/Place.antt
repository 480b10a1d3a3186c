-- ===== src/Loader/Place.antt =====
-- The loop over the program headers puts every segment's bytes where its header says.
use mad_os.Base.{
  ℕ, zero, suc, ltb, true, false, ◌+◌, ◌*◌, ◌≤◌, ◌<◌, ◌≡◌, refl, ◌∙◌, List, [], ◌∷◌, All, length,
  arith,
}
use mad_os.Base.Run.{done}
use mad_os.Memory.{Memory}
use mad_os.Memory.Laws.{load_cong}
use mad_os.Loader.Firmware.{Machine, Firmware}
use mad_os.Loader.Elf.{Phdr, phdr_at, pt_load, e_phentsize, table_size, load_segment, load_segments}
use mad_os.Loader.Segment.{IsFile, Untouched, phdr_at_cong, step_good, step_inside, step_outside}

-- The program headers `hs` stand in a table from `a` on, one in every `entry` bytes.
abbrev pub Table : (entry : ℕ) → Memory → ℕ → List Phdr → Type 0
Table entry m a [] = Unit {0}
Table entry m a (h ∷ hs) = (phdr_at m a ≡ h) × Table entry m (a + entry) hs

-- The segment lies outside the `n` bytes at `a`.
abbrev pub Beside : ℕ → ℕ → Phdr → Type 0
Beside a n h = (x : ℕ) → a ≤ x → x < a + n → Untouched h x

Table-frame :
    (entry : ℕ) (m k : Memory) (a : ℕ) (hs : List Phdr) (lo : ℕ)
    → 56 ≤ entry
    → lo ≤ a
    → ((x : ℕ) → lo ≤ x → x < a + length hs * entry → k x ≡ m x)
    → Table entry m a hs
    → Table entry k a hs
Table-frame entry m k a [] lo wide le same t = tt
Table-frame entry m k a (h ∷ hs) lo wide le same t =
    let n : a + (length hs + 1) * entry ≡ a + entry + length hs * entry = grind arith in
    (
      phdr_at_cong k m a (λ x from to. same x (omega arith) (grind arith)) ∙ t.0,
      Table-frame entry m k (a + entry) hs lo wide (omega arith)
          (λ x from to. same x from (grind arith)) t.1,
    )

-- Segments that share no byte with one another.
abbrev pub Disjoint : List Phdr → Type 0
Disjoint [] = Unit {0}
Disjoint (h ∷ hs) =
    All (λ g. h.p_type ≡ pt_load → (i : ℕ) → i < h.p_filesz → Untouched g (h.p_paddr + i)) hs
    × Disjoint hs

-- The file has the segment's bytes.
abbrev pub Within : ℕ → Phdr → Type 0
Within size h = h.p_type ≡ pt_load → h.p_offset + h.p_filesz ≤ size

-- The memory holds the segment's bytes at the segment's address.
abbrev pub Placed : (ℕ → ℕ) → Memory → Phdr → Type 0
Placed bytes m h =
    h.p_type ≡ pt_load → (i : ℕ) → i < h.p_filesz → m (h.p_paddr + i) ≡ bytes (h.p_offset + i)

All-at :
    (h : Phdr) (hs : List Phdr)
    → All (λ g. h.p_type ≡ pt_load → (i : ℕ) → i < h.p_filesz → Untouched g (h.p_paddr + i)) hs
    → h.p_type ≡ pt_load
    → (i : ℕ) → i < h.p_filesz
    → All (λ g. Untouched g (h.p_paddr + i)) hs
All-at h [] c e i lt = tt
All-at h (g ∷ hs) c e i lt = (c.0 e i lt, All-at h hs c.1 e i lt)

module _ {S : Type 0} (fw : Firmware S) (file size : ℕ) (bytes : ℕ → ℕ) where
  module _ (f : IsFile fw file size bytes) (entry : ℕ) (wide : 56 ≤ entry) where
    -- What the rounds for `left` program headers do, from the one at `a` on.
    load_rounds : (left : ℕ) → (a : ℕ) → Machine S → Machine S
    load_rounds zero a s = s
    load_rounds (suc left) a s = load_rounds left (a + entry) (load_segment fw file a s)

    next-Table :
        (a : ℕ) (h : Phdr) (hs : List Phdr) (s : Machine S)
        → f.Good s
        → Within size h
        → Table entry s.mem a (h ∷ hs)
        → Beside a (length (h ∷ hs) * entry) h
        → Table entry (load_segment fw file a s).mem (a + entry) hs
    next-Table a h hs s good within t beside =
        let n : a + (length hs + 1) * entry ≡ a + entry + length hs * entry = grind arith in
        Table-frame entry s.mem (load_segment fw file a s).mem (a + entry) hs a wide (omega arith)
          (λ x from to.
            step_outside fw file size bytes f a h s t.0 good within x (beside x from (grind arith)))
          t.1

    Beside-next :
        (a n k : ℕ) (hs : List Phdr)
        → n ≡ entry + k
        → All (Beside a n) hs
        → All (Beside (a + entry) k) hs
    Beside-next a n k [] e b = tt
    Beside-next a n k (h ∷ hs) e b =
        (λ x from to. b.0 x (omega arith) (omega arith), Beside-next a n k hs e b.1)

    -- A byte that no segment touches stays as it was.
    spares :
        (a : ℕ) (hs : List Phdr) (s : Machine S) (x : ℕ)
        → f.Good s
        → All (Within size) hs
        → Table entry s.mem a hs
        → All (Beside a (length hs * entry)) hs
        → All (λ h. Untouched h x) hs
        → (load_rounds (length hs) a s).mem x ≡ s.mem x
    unfolding load_rounds
    spares a [] s x good within t beside out = refl
    spares a (h ∷ hs) s x good within t beside out =
        spares (a + entry) hs (load_segment fw file a s) x
          (step_good fw file size bytes f a h s t.0 good) within.1
          (next-Table a h hs s good within.0 t beside.0)
          (Beside-next a (length (h ∷ hs) * entry) (length hs * entry) hs (grind arith) beside.1)
          out.1
        ∙ step_outside fw file size bytes f a h s t.0 good within.0 x out.0

    placed :
        (a : ℕ) (hs : List Phdr) (s : Machine S)
        → f.Good s
        → All (Within size) hs
        → Table entry s.mem a hs
        → All (Beside a (length hs * entry)) hs
        → Disjoint hs
        → All (Placed bytes (load_rounds (length hs) a s).mem) hs
    unfolding load_rounds
    placed a [] s good within t beside apart = tt
    placed a (h ∷ hs) s good within t beside apart =
        let s' = load_segment fw file a s in
        let good' = step_good fw file size bytes f a h s t.0 good in
        let t' = next-Table a h hs s good within.0 t beside.0 in
        let beside' =
          Beside-next a (length (h ∷ hs) * entry) (length hs * entry) hs (grind arith) beside.1 in
        (
          (λ e i lt.
              spares (a + entry) hs s' (h.p_paddr + i) good' within.1 t' beside'
                (All-at h hs apart.0 e i lt)
              ∙ step_inside fw file size bytes f a h s t.0 good within.0 e i lt),
          placed (a + entry) hs s' good' within.1 t' beside' apart.1,
        )

    -- The file's header says how the table is laid out.
    abbrev pub HeadsTable : (header n : ℕ) → Memory → Type 0
    HeadsTable header n m = (table_size m header ≡ done n) × (e_phentsize m header ≡ entry)

    pub HeadsTable-kept :
        (header n : ℕ) (m k : Memory)
        → ((x : ℕ) → header ≤ x → x < header + 64 → k x ≡ m x)
        → HeadsTable header n m
        → HeadsTable header n k
    unfolding table_size
    HeadsTable-kept header n m k same (size, wide_) =
        let number =
          load_cong 2 k m (header + 56) (λ x lo hi. same x (omega arith) (omega arith)) in
        let each = load_cong 2 k m (header + 54) (λ x lo hi. same x (omega arith) (omega arith)) in
        (rw (number, each) size, each ∙ wide_)

    -- The loop ends with what its rounds do, as the header stays as it is.
    loop_rounds :
        (header phdrs n fuel a : ℕ) (hs : List Phdr) (s : Machine S)
        → length hs < fuel
        → a + length hs * entry ≡ phdrs + n
        → f.Good s
        → All (Within size) hs
        → Table entry s.mem a hs
        → All (Beside a (length hs * entry)) hs
        → All (Beside header 64) hs
        → HeadsTable header n s.mem
        → load_segments fw fuel header file phdrs a s ≡ done (load_rounds (length hs) a s)
    unfolding load_segments load_rounds
    loop_rounds header phdrs n zero a hs s enough end good within t beside off heads =
        absurd (omega arith)
    loop_rounds header phdrs n (suc fuel) a [] s enough end good within t beside off heads =
        let over : ltb a (phdrs + n) ≡ false = ground (arith, end) in rw (heads.0, over)
    loop_rounds header phdrs n (suc fuel) a (h ∷ hs) s enough end good within t beside off heads =
        let s' = load_segment fw file a s in
        let total : a + (length hs + 1) * entry ≡ a + entry + length hs * entry = grind arith in
        let more : ltb a (phdrs + n) ≡ true = ground (arith, end, total, wide) in
        let heads' =
          HeadsTable-kept header n s.mem s'.mem
            (λ x lo hi. step_outside fw file size bytes f a h s t.0 good within.0 x (off.0 x lo hi))
            heads in
        rw (heads.0, more, heads'.1)
          (loop_rounds header phdrs n fuel (a + entry) hs s' (omega arith)
            (omega (arith, end, total)) (step_good fw file size bytes f a h s t.0 good) within.1
            (next-Table a h hs s good within.0 t beside.0)
            (Beside-next a (length (h ∷ hs) * entry) (length hs * entry) hs (grind arith) beside.1)
            off.1 heads')

    -- If the kernel's file is as the firmware documents files, the program headers stand in a
    -- table, one in every `entry` bytes, whose layout the file's header tells, the file has all the
    -- bytes that they name, and no two segments share a byte, nor a segment and the table or the
    -- header, then the loop ends, and every byte of every segment to be loaded stands at its place in
    -- memory, and every byte that no such segment covers is what it was.
    pub load_segments-Placed :
        (header fuel a : ℕ) (hs : List Phdr) (s : Machine S)
        → length hs < fuel
        → f.Good s
        → All (Within size) hs
        → Table entry s.mem a hs
        → All (Beside a (length hs * entry)) hs
        → All (Beside header 64) hs
        → HeadsTable header (length hs * entry) s.mem
        → Disjoint hs
        → (u : Machine S) × (load_segments fw fuel header file a a s ≡ done u)
          × All (Placed bytes u.mem) hs
          × ((x : ℕ) → All (λ h. Untouched h x) hs → u.mem x ≡ s.mem x)
    load_segments-Placed header fuel a hs s enough good within t beside off heads apart = (
      load_rounds (length hs) a s,
      loop_rounds header a (length hs * entry) fuel a hs s enough refl good within t beside off
          heads,
      placed a hs s good within t beside apart,
      λ x. spares a hs s x good within t beside,
    )
