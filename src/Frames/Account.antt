-- ===== src/Frames/Account.antt =====
-- The counters of allocated and free memory follow the bitmap.
use mad_os.Frames.Defs.{
  Frames, page_used, page_of, addr_of, allocate_page, free_page, for_pages, pages_from,
  allocate_pages, free_pages,
}
use mad_os.Frames.Laws.{WritesPage, allocate_page-WritesPage, free_page-WritesPage}
use mad_os.Frames.Range.{Marks, max_pages, allocate_pages-Marks, free_pages-Marks}
use mad_os.Base.{
  ℕ, zero, suc, ◌+◌, ◌-◌, ◌*◌, ◌≤◌, ◌<◌, ◌≡◌, inl, inr, refl, Bool, true, false, not, ◌&&◌,
  if◌then◌else◌, u64, arith, Bool-cases,
}
use native.Mathlib.Nat.{add_comm}
use mad_os.Bitmap.{beyond}
use mad_os.Bitmap.Laws.{set-beyond, set_within}

-- How many of the `n` numbers from `i` on pass the test.
unfoldable pub count : (ℕ → Bool) → ℕ → ℕ → ℕ
count p i zero = 0
count p i (suc n) = (if p i then 1 else 0) + count p (i + 1) n

count_cong : (p q : ℕ → Bool) (i n : ℕ) → ((j : ℕ) → i ≤ j → p j ≡ q j) → count p i n ≡ count q i n
unfolding count
count_cong p q i zero same = refl
count_cong p q i (suc n) same =
    rw (same i (omega arith), count_cong p q (i + 1) n (λ j h. same j (omega arith)))

count_all : (p : ℕ → Bool) (i n : ℕ) → ((j : ℕ) → i ≤ j → j < i + n → p j ≡ true) → count p i n ≡ n
unfolding count
count_all p i zero all = refl
count_all p i (suc n) all =
    rw
      (
        all i (omega arith) (omega arith),
        count_all p (i + 1) n (λ j lo hi. all j (omega arith) (omega arith)),
      )
      (omega arith)

-- A page that an allocation would take, and one that a free would give back.
abbrev pub is_fresh : Frames → ℕ → Bool
is_fresh s i = not (page_used s i) && not (beyond s.page_bitmap i)

abbrev pub is_held : Frames → ℕ → Bool
is_held s i = page_used s i && not (beyond s.page_bitmap i)

-- From `s` to `t`, `k` pages have moved from the free to the allocated memory.
pub record Moved (k : ℕ) (s t : Frames) : Type 0 where
  pub allocated : u64 t.allocated_memory ≡ u64 (s.allocated_memory + 4096 * k)
  pub free : u64 (t.free_memory + 4096 * k) ≡ u64 s.free_memory

Moved-trans : (k l : ℕ) {s t u : Frames} → Moved k s t → Moved l t u → Moved (k + l) s u
Moved-trans k l p q = record { allocated = omega arith; free = omega arith }

Moved-zero : (s : Frames) → Moved 0 s s
Moved-zero s = record { allocated = omega arith; free = omega arith }

allocate_page-Moved :
    (s : Frames) (addr : ℕ)
    → Moved (if is_fresh s (page_of addr) then 1 else 0) s (allocate_page s addr)
unfolding allocate_page
allocate_page-Moved s addr = elim (Bool-cases (page_used s (page_of addr))) [
  | inl used ↦ rw used (Moved-zero s)
  | inr unused ↦ elim (Bool-cases (beyond s.page_bitmap (page_of addr))) [
    | inl out ↦
        rw (unused, set-beyond s.mem s.page_bitmap (page_of addr) true out, out) (Moved-zero s)
    | inr in_b ↦
        rw (unused, set_within s.mem s.page_bitmap (page_of addr) true in_b, in_b)
          (record { allocated = omega arith; free = omega arith })
  ]
]

-- A free moves the page the other way.
free_page-Moved :
    (s : Frames) (addr : ℕ) → Moved (if is_held s (page_of addr) then 1 else 0) (free_page s addr) s
unfolding free_page
free_page-Moved s addr = elim (Bool-cases (page_used s (page_of addr))) [
  | inr unused ↦ rw unused (Moved-zero s)
  | inl used ↦ elim (Bool-cases (beyond s.page_bitmap (page_of addr))) [
    | inl out ↦
        rw (used, set-beyond s.mem s.page_bitmap (page_of addr) false out, out) (Moved-zero s)
    | inr in_b ↦
        rw (used, set_within s.mem s.page_bitmap (page_of addr) false in_b, in_b)
          (record { allocated = omega arith; free = omega arith })
  ]
]

allocate_loop-Moved :
    (left i : ℕ) (s : Frames)
    → i + left ≤ max_pages
    → Moved (count (is_fresh s) i left) s (for_pages allocate_page left i s)
unfolding for_pages count
allocate_loop-Moved zero i s h = Moved-zero s
allocate_loop-Moved (suc left) i s h =
    let page : page_of (addr_of i) ≡ i = omega arith in
    let t = allocate_page s (addr_of i) in
    let writes : WritesPage true i s t = rw page at (allocate_page-WritesPage s (addr_of i)) in
    let first : Moved (if is_fresh s i then 1 else 0) s t =
      rw page at (allocate_page-Moved s (addr_of i)) in
    let same : count (is_fresh t) (i + 1) left ≡ count (is_fresh s) (i + 1) left =
      count_cong (is_fresh t) (is_fresh s) (i + 1) left
        (λ j lo. ground (arith, writes.writes.bits j, writes.same_bitmap)) in
    let rest : Moved (count (is_fresh s) (i + 1) left) t (for_pages allocate_page left (i + 1) t) =
      rw same at (allocate_loop-Moved left (i + 1) t (omega arith)) in
    Moved-trans (if is_fresh s i then 1 else 0) (count (is_fresh s) (i + 1) left) first rest

free_loop-Moved :
    (left i : ℕ) (s : Frames)
    → i + left ≤ max_pages
    → Moved (count (is_held s) i left) (for_pages free_page left i s) s
unfolding for_pages count
free_loop-Moved zero i s h = Moved-zero s
free_loop-Moved (suc left) i s h =
    let page : page_of (addr_of i) ≡ i = omega arith in
    let t = free_page s (addr_of i) in
    let writes : WritesPage false i s t = rw page at (free_page-WritesPage s (addr_of i)) in
    let first : Moved (if is_held s i then 1 else 0) t s =
      rw page at (free_page-Moved s (addr_of i)) in
    let same : count (is_held t) (i + 1) left ≡ count (is_held s) (i + 1) left =
      count_cong (is_held t) (is_held s) (i + 1) left
        (λ j lo. ground (arith, writes.writes.bits j, writes.same_bitmap)) in
    let rest : Moved (count (is_held s) (i + 1) left) (for_pages free_page left (i + 1) t) t =
      rw same at (free_loop-Moved left (i + 1) t (omega arith)) in
    rw (add_comm (if is_held s i then 1 else 0) (count (is_held s) (i + 1) left))
      (Moved-trans (count (is_held s) (i + 1) left) (if is_held s i then 1 else 0) rest first)

-- `AllocatePages` adds to the allocated memory, and takes from the free memory, 4096 bytes for each
-- page of the range that was free and that the bitmap reaches; pages in use are not counted again.
pub allocate_pages-Moved :
    (s : Frames) (addr n : ℕ)
    → page_of addr + n ≤ max_pages
    → Moved (count (is_fresh s) (page_of addr) n) s (allocate_pages s addr n)
unfolding allocate_pages pages_from
allocate_pages-Moved s addr n h =
    let rounds : u64 (page_of addr + n) - page_of addr ≡ n = omega arith in
    rw rounds (allocate_loop-Moved n (page_of addr) s h)

-- `FreePages` moves 4096 bytes from the allocated to the free memory for each page of the range
-- that was in use; pages that are free already are not counted again.
pub free_pages-Moved :
    (s : Frames) (addr n : ℕ)
    → page_of addr + n ≤ max_pages
    → Moved (count (is_held s) (page_of addr) n) (free_pages s addr n) s
unfolding free_pages pages_from
free_pages-Moved s addr n h =
    let rounds : u64 (page_of addr + n) - page_of addr ≡ n = omega arith in
    rw rounds (free_loop-Moved n (page_of addr) s h)

-- Freeing a range that was wholly free before it was allocated restores every bit of the bitmap
-- and, modulo 2 ^ 64, both counters.
pub free_pages-allocate_pages :
    (s : Frames) (addr n : ℕ)
    → page_of addr + n ≤ max_pages
    → ((j : ℕ) → page_of addr ≤ j → j < page_of addr + n → is_fresh s j ≡ true)
    → let t = free_pages (allocate_pages s addr n) addr n in
      ((j : ℕ) → page_used t j ≡ page_used s j)
      × (u64 t.allocated_memory ≡ u64 s.allocated_memory)
      × (u64 t.free_memory ≡ u64 s.free_memory)
free_pages-allocate_pages s addr n h fresh =
    (bits, omega (arith, there.allocated, back.allocated), omega (arith, there.free, back.free))
  where
    start : ℕ
    start = page_of addr

    u : Frames
    u = allocate_pages s addr n

    up : Marks true start (start + n) s u
    up = allocate_pages-Marks s addr n h

    down : Marks false start (start + n) u (free_pages u addr n)
    down = free_pages-Marks u addr n h

    bits : (j : ℕ) → page_used (free_pages u addr n) j ≡ page_used s j
    bits j = ground (arith, up.bits j, down.bits j, up.same_bitmap, fresh j)

    there : Moved n s u
    there = rw (count_all (is_fresh s) start n fresh) at (allocate_pages-Moved s addr n h)

    held : (j : ℕ) → start ≤ j → j < start + n → is_held u j ≡ true
    held j lo hi = ground (arith, up.bits j, up.same_bitmap, fresh j)

    back : Moved n (free_pages u addr n) u
    back = rw (count_all (is_held u) start n held) at (free_pages-Moved u addr n h)
