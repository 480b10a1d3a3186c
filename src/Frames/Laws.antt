-- ===== src/Frames/Laws.antt =====
-- What each operation on one page does to the bitmap, and what it leaves alone.
use mad_os.Frames.Defs.{
  Frames, page_used, page_of, allocate_page, free_page, reserve_page, unreserve_page,
}
use mad_os.Base.{
  ℕ, ◌+◌, ◌/◌, ◌≤◌, ◌<◌, ◌≡◌, ◌≢◌, refl, ◌∙◌, Bool, true, false, not, ◌&&◌, ◌⊎◌, ◌==◌,
  if◌then◌else◌, arith, Bool-cases, inl, inr,
}
use native.Mathlib.Decide.{ℕ_discrete}
use mad_os.Memory.{Memory}
use mad_os.Bitmap
use mad_os.Bitmap.{Bitmap, beyond}
use mad_os.Bitmap.Laws.{set-beyond, set_within, get-set_self, get-set_ne, set_frame}

-- The byte range in which the bitmap lies: also the byte behind it, which index `size * 8` reaches.
abbrev pub InBuffer : Bitmap → ℕ → Type 0
InBuffer b x = (b.buffer ≤ x) × (x ≤ b.buffer + b.size)

-- What writing `v` for page `i` comes to: the bit is written, unless it lies beyond the bitmap,
-- and the other bits and the rest of the memory stay.
pub record Writes (v : Bool) (i : ℕ) (b : Bitmap) (m k : Memory) : Type 0 where
  pub bits :
      (j : ℕ) → Bitmap.get k b j ≡ (if (i == j) && not (beyond b j) then v else Bitmap.get m b j)
  pub frame : (x : ℕ) → (x < b.buffer) ⊎ (b.buffer + b.size < x) → k x ≡ m x

module _ (v : Bool) (i : ℕ) (b : Bitmap) (m : Memory) where
  -- A call that leaves the memory alone, since the bit has that value.
  Writes-same : Bitmap.get m b i ≡ v → Writes v i b m m
  Writes-same h = record { bits = bits; frame = λ x _. refl }
    where
      bits :
          (j : ℕ)
          → Bitmap.get m b j ≡ (if (i == j) && not (beyond b j) then v else Bitmap.get m b j)
      bits j = elim (ℕ_discrete i j) [ yes e ↦ rw (← e) (ground arith) | no ne ↦ ground arith ]

  -- A call that leaves the memory alone, since the index lies beyond the bitmap.
  Writes-beyond : beyond b i ≡ true → Writes v i b m m
  Writes-beyond h = record { bits = λ j. ground arith; frame = λ x _. refl }

  in_buffer :
      (x : ℕ) → beyond b i ≡ false → (x < b.buffer) ⊎ (b.buffer + b.size < x) → x ≢ b.buffer + i / 8
  in_buffer x h out = ground arith

  Writes-set : Writes v i b m (Bitmap.set m b i v).0
  Writes-set = record { bits = bits; frame = frame }
    where
      bits :
          (j : ℕ)
          → Bitmap.get (Bitmap.set m b i v).0 b j
            ≡ (if (i == j) && not (beyond b j) then v else Bitmap.get m b j)
      bits j = elim (ℕ_discrete i j) [
        | yes e ↦ elim (Bool-cases (beyond b i)) [
          | inl out ↦ rw (← e, set-beyond m b i v out, out) (ground arith)
          | inr in_b ↦ rw (← e) (get-set_self m b i v in_b ∙ ground arith)
        ]
        | no ne ↦ get-set_ne m b i j v ne ∙ ground arith
      ]

      frame : (x : ℕ) → (x < b.buffer) ⊎ (b.buffer + b.size < x) → (Bitmap.set m b i v).0 x ≡ m x
      frame x out = elim (Bool-cases (beyond b i)) [
        | inl far ↦ rw (set-beyond m b i v far)
        | inr in_b ↦ set_frame m b i v x (in_buffer x in_b out)
      ]

-- The same of an operation on the allocator, which also keeps the bitmap where it is.
pub record WritesPage (v : Bool) (i : ℕ) (s t : Frames) : Type 0 where
  pub same_bitmap : t.page_bitmap ≡ s.page_bitmap
  pub writes : Writes v i s.page_bitmap s.mem t.mem

pub allocate_page-WritesPage :
    (s : Frames) (addr : ℕ) → WritesPage true (page_of addr) s (allocate_page s addr)
unfolding allocate_page
allocate_page-WritesPage s addr = elim (Bool-cases (page_used s (page_of addr))) [
  | inl used ↦ rw used (record {
    same_bitmap = refl;
    writes = Writes-same true (page_of addr) s.page_bitmap s.mem used;
  })
  | inr unused ↦ elim (Bool-cases (beyond s.page_bitmap (page_of addr))) [
    | inl out ↦
        rw (unused, set-beyond s.mem s.page_bitmap (page_of addr) true out)
          (record {
            same_bitmap = refl;
            writes = Writes-beyond true (page_of addr) s.page_bitmap s.mem out;
          })
    | inr in_b ↦
        rw (unused, set_within s.mem s.page_bitmap (page_of addr) true in_b)
          (record {
            same_bitmap = refl;
            writes = Writes-set true (page_of addr) s.page_bitmap s.mem;
          })
  ]
]

pub reserve_page-WritesPage :
    (s : Frames) (addr : ℕ) → WritesPage true (page_of addr) s (reserve_page s addr)
unfolding reserve_page
reserve_page-WritesPage s addr = elim (Bool-cases (page_used s (page_of addr))) [
  | inl used ↦ rw used (record {
    same_bitmap = refl;
    writes = Writes-same true (page_of addr) s.page_bitmap s.mem used;
  })
  | inr unused ↦
      rw unused
        (record { same_bitmap = refl; writes = Writes-set true (page_of addr) s.page_bitmap s.mem })
]

pub free_page-WritesPage :
    (s : Frames) (addr : ℕ) → WritesPage false (page_of addr) s (free_page s addr)
unfolding free_page
free_page-WritesPage s addr = elim (Bool-cases (page_used s (page_of addr))) [
  | inr unused ↦ rw unused (record {
    same_bitmap = refl;
    writes = Writes-same false (page_of addr) s.page_bitmap s.mem unused;
  })
  | inl used ↦ elim (Bool-cases (beyond s.page_bitmap (page_of addr))) [
    | inl out ↦
        rw (used, set-beyond s.mem s.page_bitmap (page_of addr) false out)
          (record {
            same_bitmap = refl;
            writes = Writes-beyond false (page_of addr) s.page_bitmap s.mem out;
          })
    | inr in_b ↦
        rw (used, set_within s.mem s.page_bitmap (page_of addr) false in_b)
          (record {
            same_bitmap = refl;
            writes = Writes-set false (page_of addr) s.page_bitmap s.mem;
          })
  ]
]

pub unreserve_page-WritesPage :
    (s : Frames) (addr : ℕ) → WritesPage false (page_of addr) s (unreserve_page s addr)
unfolding unreserve_page
unreserve_page-WritesPage s addr = elim (Bool-cases (page_used s (page_of addr))) [
  | inr unused ↦ rw unused (record {
    same_bitmap = refl;
    writes = Writes-same false (page_of addr) s.page_bitmap s.mem unused;
  })
  | inl used ↦ elim (Bool-cases (beyond s.page_bitmap (page_of addr))) [
    | inl out ↦
        rw (used, set-beyond s.mem s.page_bitmap (page_of addr) false out)
          (record {
            same_bitmap = refl;
            writes = Writes-beyond false (page_of addr) s.page_bitmap s.mem out;
          })
    | inr in_b ↦
        rw (used, set_within s.mem s.page_bitmap (page_of addr) false in_b)
          (record {
            same_bitmap = refl;
            writes = Writes-set false (page_of addr) s.page_bitmap s.mem;
          })
  ]
]
