-- ===== src/Loader/Image.antt =====
-- From the program headers of the kernel's file to its segments in memory.
use mad_os.Base.{
  ℕ, zero, suc, ◌+◌, ◌*◌, ◌^◌, ◌≤◌, ◌<◌, ◌≡◌, ◌⊎◌, ltb, true, refl, ap, ◌∙◌, List, [], ◌∷◌, All,
  length, arith,
}
use native.Mathlib.Nat.{add-zero}
use mad_os.Base.Run.{done}
use mad_os.Memory.{Memory, load}
use mad_os.Loader.Firmware.{Machine, Firmware}
use mad_os.Loader.Elf.{Phdr, phdr_at, e_phoff, e_phentsize, e_phnum, table_size, load_segments}
use mad_os.Loader.Segment.{IsFile}
use mad_os.Loader.Place.{
  Table, Beside, Disjoint, Within, Placed, HeadsTable, HeadsTable-kept, load_segments-Placed,
}
use mad_os.Loader.Main.{Places, load_kernel}

load_shift :
    (n : ℕ) (m k : Memory) (a b : ℕ)
    → ((i : ℕ) → i < n → m (a + i) ≡ k (b + i))
    → load n m a ≡ load n k b
unfolding load
load_shift zero m k a b same = refl
load_shift (suc n) m k a b same =
    let first : m a ≡ k b = simp (add-zero) at (same 0 (omega arith)) in
    let rest = load_shift n m k (a + 1) (b + 1) (λ i lt. shifted i lt) in omega (arith, first, rest)
  where
    shifted : (i : ℕ) → i < n → m (a + 1 + i) ≡ k (b + 1 + i)
    shifted i lt =
        let e : a + 1 + i ≡ a + (i + 1) = omega arith in
        let e' : b + 1 + i ≡ b + (i + 1) = omega arith in rw (e, e') (same (i + 1) (omega arith))

module _ (m k : Memory) (a b : ℕ) (same : (i : ℕ) → i < 56 → m (a + i) ≡ k (b + i)) where
  part : (n offset : ℕ) → offset + n ≤ 56 → load n m (a + offset) ≡ load n k (b + offset)
  part n offset le = load_shift n m k (a + offset) (b + offset) (λ i lt. shifted i lt)
    where
      shifted : (i : ℕ) → i < n → m (a + offset + i) ≡ k (b + offset + i)
      shifted i lt =
          let e : a + offset + i ≡ a + (offset + i) = omega arith in
          let e' : b + offset + i ≡ b + (offset + i) = omega arith in
          rw (e, e') (same (offset + i) (omega arith))

  phdr_at_shift : phdr_at m a ≡ phdr_at k b
  unfolding phdr_at
  phdr_at_shift = rw (
    load_shift 4 m k a b (λ i lt. same i (omega arith)),
    part 8 8 (omega arith),
    part 8 24 (omega arith),
    part 8 32 (omega arith),
    part 8 40 (omega arith),
  )

-- Two areas of memory that share no byte.
abbrev pub Apart : (a n b k : ℕ) → Type 0
Apart a n b k = (a + n ≤ b) ⊎ (b + k ≤ a)

-- A copy of a table is a table.
Table-shift :
    (entry : ℕ) (m k : Memory) (a b : ℕ) (hs : List Phdr)
    → 56 ≤ entry
    → ((i : ℕ) → i < length hs * entry → m (a + i) ≡ k (b + i))
    → Table entry k b hs
    → Table entry m a hs
Table-shift entry m k a b [] wide same t = tt
Table-shift entry m k a b (h ∷ hs) wide same t = (
  phdr_at_shift m k a b (λ i lt. same i (grind arith)) ∙ t.0,
  Table-shift entry m k (a + entry) (b + entry) hs wide (λ i lt. shifted i lt) t.1,
)
  where
    shifted : (i : ℕ) → i < length hs * entry → m (a + entry + i) ≡ k (b + entry + i)
    shifted i lt =
        let e : a + entry + i ≡ a + (entry + i) = omega arith in
        let e' : b + entry + i ≡ b + (entry + i) = omega arith in
        rw (e, e') (same (entry + i) (grind arith))

load_kernel_run :
    {S : Type 0} (fw : Firmware S) (fuel : ℕ) (p : Places) (kernel n : ℕ) (s s1 s2 s3 u : Machine S)
    (a : ℕ)
    → fw.set_position kernel (e_phoff s.mem p.header) s ≡ s1
    → table_size s1.mem p.header ≡ done n
    → fw.allocate_pool n s1 ≡ (a, s2)
    → (fw.read kernel n a s2).1 ≡ s3
    → load_segments fw fuel p.header kernel a a s3 ≡ done u
    → load_kernel fw fuel p kernel s ≡ done (tt, u)
unfolding load_kernel
load_kernel_run fw fuel p kernel n s s1 s2 s3 u a at size pool table run =
    rw (at, size, pool, table, run) refl

table_size_product :
    (m : Memory) (header n e : ℕ)
    → e_phnum m header ≡ n
    → e_phentsize m header ≡ e
    → n * e < 2 ^ 31
    → table_size m header ≡ done (n * e)
unfolding table_size
table_size_product m header n e number size small =
    let fits : ltb (n * e) (2 ^ 31) ≡ true = ground arith in rw (number, size, fits)

-- If the kernel's file is as the firmware documents files, the file's header, at its place in memory,
-- tells where in the file the program headers `hs` stand, how many there are, and how far apart, by at
-- least the 56 bytes of one, with a product below 2 ^ 31, the file has all bytes that they name, no two
-- segments share a byte, nor a segment and the file's header, and pools lie outside the segments and
-- that header, then the loading ends, with fuel for one round more than program headers, and every byte
-- of every segment to be loaded stands at its place in memory.
pub load_kernel-Placed :
    {S : Type 0} (fw : Firmware S) (kernel size : ℕ) (bytes : ℕ → ℕ)
    (f : IsFile fw kernel size bytes) (fuel : ℕ) (p : Places) (s : Machine S) (entry : ℕ)
    (hs : List Phdr)
    → length hs < fuel
    → f.Good s
    → e_phnum s.mem p.header ≡ length hs
    → e_phentsize s.mem p.header ≡ entry
    → 56 ≤ entry
    → length hs * entry < 2 ^ 31
    → Table entry bytes (e_phoff s.mem p.header) hs
    → e_phoff s.mem p.header + length hs * entry ≤ size
    → All (Within size) hs
    → Disjoint hs
    → All (Beside p.header 64) hs
    → ((t : Machine S)
        → f.Good t
        → Apart p.header 64 (fw.allocate_pool (length hs * entry) t).0 (length hs * entry)
          × All (Beside (fw.allocate_pool (length hs * entry) t).0 (length hs * entry)) hs)
    → (t : Machine S) × (load_kernel fw fuel p kernel s ≡ done (tt, t))
      × All (Placed bytes t.mem) hs
load_kernel-Placed fw kernel size bytes f fuel p s entry hs enough good number entry_size wide small
      table room within apart off pools =
    let n = length hs * entry in
    let s1 = fw.set_position kernel (e_phoff s.mem p.header) s in
    let good1 = f.seek_good (e_phoff s.mem p.header) s good in
    let a = (fw.allocate_pool n s1).0 in
    let s2 = (fw.allocate_pool n s1).1 in
    let good2 = f.pool_good n s1 good1 in
    let at : f.position s2 ≡ e_phoff s.mem p.header =
      f.pool_position n s1 good1 ∙ f.seek_position (e_phoff s.mem p.header) s good in
    let s3 = (fw.read kernel n a s2).1 in
    let fits : f.position s2 + n ≤ size = omega arith in
    let here : Table entry s3.mem a hs =
      Table-shift entry s3.mem bytes a (e_phoff s.mem p.header) hs wide
        (λ i lt. f.read_inside n a i s2 good2 fits lt ∙ ap (λ (q : ℕ). bytes (q + i)) at) table in
    let seek_kept : (x : ℕ) → s1.mem x ≡ s.mem x =
      λ x. f.seek_mem (e_phoff s.mem p.header) x s good in
    let heads1 : HeadsTable fw kernel size bytes f entry wide p.header n s1.mem =
      HeadsTable-kept fw kernel size bytes f entry wide p.header n s.mem s1.mem
        (λ x lo hi. seek_kept x)
        (table_size_product s.mem p.header (length hs) entry number entry_size small, entry_size) in
    let (clear, beside) = pools s1 good1 in
    let heads3 =
      HeadsTable-kept fw kernel size bytes f entry wide p.header n s1.mem s3.mem
        (λ x lo hi.
          let out : (x < a) ⊎ (a + n ≤ x) = omega (arith, clear) in
          f.read_outside n a x s2 good2 fits out ∙ f.pool_outside n x s1 good1 out)
        heads1 in
    let (u, run, placed, others) =
      load_segments-Placed fw kernel size bytes f entry wide p.header fuel a hs s3 enough
        (f.read_good n a s2 good2) within here beside off heads3 apart in
    (u, load_kernel_run fw fuel p kernel n s s1 s2 s3 u a refl heads1.0 refl refl run, placed)
