-- ===== src/Frames/Request.antt =====
-- `RequestPage` hands out the lowest free page, and `NULL` only when there is none.
use mad_os.Frames.Defs.{
  Frames, page_used, page_of, addr_of, allocate_page, request_loop, request_page, page_limit,
}
use mad_os.Frames.Laws.{WritesPage, allocate_page-WritesPage}
use mad_os.Frames.Cursor.{IsLow, allocate_page-IsLow}
use mad_os.Frames.Range.{max_pages}
use native.Mathlib.Decide.{ℕ_discrete}
use mad_os.Bitmap.{beyond}
use mad_os.Bitmap.Laws.{set_within}
use mad_os.Base.{
  ℕ, zero, suc, ◌+◌, ◌-◌, ◌*◌, ◌≤◌, ◌<◌, ◌≡◌, inl, inr, ◌∙◌, ap, true, false, u64, arith,
  Bool-cases, ge→ltb,
}

-- The state with the cursor moved.
abbrev pub at : Frames → ℕ → Frames
at s k = record s { bitmap_index = k }

-- All pages from `lo` up to `hi` are in use.
abbrev pub AllUsed : Frames → ℕ → ℕ → Type 0
AllUsed s lo hi = (j : ℕ) → lo ≤ j → j < hi → page_used s j ≡ true

-- The loop stops at the first free page.
request_loop-found :
    (left : ℕ) (s : Frames) (c k : ℕ)
    → c ≤ k
    → k < c + left
    → page_used s k ≡ false
    → AllUsed s c k
    → request_loop left (at s c) ≡ (allocate_page (at s k) (addr_of k), addr_of k)
unfolding request_loop
request_loop-found zero s c k lo hi free used = absurd (omega arith)
request_loop-found (suc left) s c k lo hi free used = elim (ℕ_discrete c k) [
  | yes e ↦
      let here : page_used s c ≡ false = rw e free in
      rw (here, request_loop) (ap (λ j. (allocate_page (at s j) (addr_of j), addr_of j)) e)
  | no ne ↦
      rw (used c (omega arith) (omega arith), request_loop)
        (request_loop-found left s (c + 1) k (omega arith) (omega arith) free
          (λ j above below. used j (omega arith) below))
]

-- With no free page left it runs to the end.
request_loop-none :
    (left : ℕ) (s : Frames) (c : ℕ)
    → AllUsed s c (c + left)
    → request_loop left (at s c) ≡ (at s (c + left), 0)
unfolding request_loop
request_loop-none zero s c used = ap (λ j. (at s j, 0)) (omega arith)
request_loop-none (suc left) s c used =
    rw (used c (omega arith) (omega arith), request_loop)
      (request_loop-none left s (c + 1) (λ j above below. used j (omega arith) (omega arith))
        ∙ ap (λ j. (at s j, 0)) (omega arith))

-- Below a free page there is a lowest one.
lowest_free :
    (n : ℕ) (s : Frames) (c p : ℕ)
    → c + n ≡ p
    → page_used s p ≡ false
    → (k : ℕ) × (c ≤ k) × (k ≤ p) × (page_used s k ≡ false) × AllUsed s c k
lowest_free zero s c p e free = (p, omega arith, omega arith, free, λ j lo hi. absurd (omega arith))
lowest_free (suc n) s c p e free = elim (Bool-cases (page_used s c)) [
  | inr here ↦ (c, omega arith, omega arith, here, λ j lo hi. absurd (omega arith))
  | inl used ↦
      let (k, lo, hi, found, below) = lowest_free n s (c + 1) p (omega arith) free in
      (
        k,
        omega arith,
        hi,
        found,
        (λ j above hi'. elim (ℕ_discrete c j) [
          | yes e ↦ rw (← e) used
          | no ne ↦ below j (omega arith) hi'
        ]),
      )
]

-- What a successful request comes to, for the page `k` that it took.
pub record Takes (k : ℕ) (s t : Frames) (r : ℕ) : Type 0 where
  pub address : r ≡ k * 4096
  pub within : k < page_limit s
  pub was_free : page_used s k ≡ false
  pub lowest : (j : ℕ) → j < k → page_used s j ≡ true
  pub now_used : page_used t k ≡ true
  pub writes : WritesPage true k s t
  pub low : IsLow t
  pub accounted : t.allocated_memory ≡ u64 (s.allocated_memory + 4096)

allocate_page_accounted :
    (s : Frames) (k : ℕ)
    → page_used s k ≡ false
    → k < page_limit s
    → k < max_pages
    → (allocate_page s (addr_of k)).allocated_memory ≡ u64 (s.allocated_memory + 4096)
unfolding allocate_page
allocate_page_accounted s k free within fits =
    let page : page_of (addr_of k) ≡ k = omega arith in
    let in_b : beyond s.page_bitmap k ≡ false = ge→ltb (page_limit s) k (omega arith) in
    rw (page, free, set_within s.mem s.page_bitmap k true in_b)

allocate_page-Takes :
    (s : Frames) (k : ℕ)
    → page_used s k ≡ false
    → k < page_limit s
    → k < max_pages
    → ((j : ℕ) → j < k → page_used s j ≡ true)
    → Takes k s (allocate_page (at s k) (addr_of k)) (addr_of k)
allocate_page-Takes s k free within fits lowest =
    let page : page_of (addr_of k) ≡ k = omega arith in
    let writes : WritesPage true k s (allocate_page (at s k) (addr_of k)) = record {
      same_bitmap = (allocate_page-WritesPage (at s k) (addr_of k)).same_bitmap;
      writes = rw page at (allocate_page-WritesPage (at s k) (addr_of k)).writes;
    } in
    record {
      address = omega arith;
      within = within;
      was_free = free;
      lowest = lowest;
      now_used = ground (arith, writes.writes.bits k, writes.same_bitmap);
      writes = writes;
      low = allocate_page-IsLow (at s k) (addr_of k) lowest;
      accounted = allocate_page_accounted (at s k) k free within fits;
    }

-- With the cursor's invariant a free page does not lie in front of the cursor.
starts :
    (s : Frames) (p : ℕ)
    → IsLow s
    → page_used s p ≡ false
    → s.bitmap_index + (p - s.bitmap_index) ≡ p
starts s p low free = ground (arith, low p)

below_lowest :
    (s : Frames) (k : ℕ)
    → IsLow s
    → AllUsed s s.bitmap_index k
    → (j : ℕ) → j < k
    → page_used s j ≡ true
below_lowest s k low used j h = ground (arith, low j, used j)

-- If some page `p` of the bitmap is free, and no free page lies in front of the cursor, then
-- `RequestPage` returns the address of the lowest free page. That page was free and is now in use,
-- no other page and no memory outside the bitmap has changed, 4096 bytes are accounted as
-- allocated, and again no free page lies in front of the cursor.
pub request_page-Takes :
    (s : Frames) (p : ℕ)
    → IsLow s
    → page_limit s ≤ max_pages
    → p < page_limit s
    → page_used s p ≡ false
    → (k : ℕ) × (k ≤ p) × Takes k s (request_page s).0 (request_page s).1
unfolding request_page
request_page-Takes s p low small within free =
    let (k, lo, hi, found, used) =
      lowest_free (p - s.bitmap_index) s s.bitmap_index p (starts s p low free) free in
    (
      k,
      hi,
      rw
          (request_loop-found (page_limit s - s.bitmap_index) s s.bitmap_index k lo (omega arith)
            found used)
          (allocate_page-Takes s k found (omega arith) (omega arith)
            (λ j h. below_lowest s k low used j h)),
    )

-- If no page of the bitmap is free, `RequestPage` returns `NULL` and changes neither the memory nor
-- the counters.
pub request_page-null :
    (s : Frames)
    → s.bitmap_index ≤ page_limit s
    → AllUsed s 0 (page_limit s)
    → request_page s ≡ (at s (page_limit s), 0)
unfolding request_page
request_page-null s le used =
    request_loop-none (page_limit s - s.bitmap_index) s s.bitmap_index
      (λ j lo hi. used j (omega arith) (omega arith))
    ∙ ap (λ j. (at s j, 0)) (omega arith)
