-- ===== src/Frames/Boot/Survey.antt =====
-- What the two surveys of the memory map compute: the largest segment of conventional memory, and
-- the size of the memory, which is summed once.
use mad_os.Frames.Defs.{Frames}
use mad_os.Frames.Boot.{largest_segment, sum_pages, get_memory_size}
use mad_os.Base.{
  ℕ, zero, suc, ◌+◌, ◌*◌, ◌≤◌, ◌<◌, ◌≡◌, ◌⊎◌, inl, inr, refl, ap, ◌∙◌, ◌&&◌, ◌==◌, ltb,
  if◌then◌else◌, u64, arith, Bool-cases, lt→ltb,
}
use native.Mathlib.Decide.{ℕ_discrete}
use native.Mathlib.Nat.{le_trans}
use mad_os.Memory.{Memory}
use mad_os.Efi.{descriptor, memory_type, phys_addr, num_pages, conventional_memory}

-- The bytes of an entry, as the code computes them.
abbrev pub segment_bytes : Memory → ℕ → ℕ
segment_bytes m desc = u64 (num_pages m desc * 4096)

-- A segment is that of an entry of conventional memory.
abbrev pub IsSegmentOf : Memory → ℕ → ℕ × ℕ → Type 0
IsSegmentOf m desc segment =
    (memory_type m desc ≡ conventional_memory)
    × (segment.0 ≡ phys_addr m desc)
    × (segment.1 ≡ segment_bytes m desc)

-- The best segment so far, after an entry.
abbrev better : Memory → ℕ → ℕ × ℕ → ℕ × ℕ
better m desc best =
    if (memory_type m desc == conventional_memory) && ltb best.1 (segment_bytes m desc)
    then (phys_addr m desc, segment_bytes m desc)
    else best

better-le :
    (m : Memory) (desc : ℕ) (best : ℕ × ℕ)
    → (best.1 ≤ (better m desc best).1)
      × (memory_type m desc ≡ conventional_memory → segment_bytes m desc ≤ (better m desc best).1)
better-le m desc best = ground arith

module _ (m : Memory) (map descriptor_size : ℕ) where
  largest_segment-le :
      (left i : ℕ) (best : ℕ × ℕ) → best.1 ≤ (largest_segment m map descriptor_size left i best).1
  unfolding largest_segment
  largest_segment-le zero i best = omega arith
  largest_segment-le (suc left) i best =
      let desc = descriptor map descriptor_size i in
      omega (arith, better-le m desc best, largest_segment-le left (i + 1) (better m desc best))

  largest_segment_bound :
      (left i k : ℕ) (best : ℕ × ℕ)
      → i ≤ k
      → k < i + left
      → memory_type m (descriptor map descriptor_size k) ≡ conventional_memory
      → segment_bytes m (descriptor map descriptor_size k)
        ≤ (largest_segment m map descriptor_size left i best).1
  unfolding largest_segment
  largest_segment_bound zero i k best lo hi t = absurd (omega arith)
  largest_segment_bound (suc left) i k best lo hi t =
      let desc = descriptor map descriptor_size i in
      elim (ℕ_discrete i k) [
        | yes e ↦
            let t' : memory_type m desc ≡ conventional_memory = rw e t in
            rw (← e) (
              le_trans ((better-le m desc best).1 t')
                (largest_segment-le left (i + 1) (better m desc best)))
        | no ne ↦
            largest_segment_bound left (i + 1) k (better m desc best) (omega arith) (omega arith) t
      ]

  -- A segment comes from one of the entries from `i` up to `end`.
  abbrev Comes : ℕ → ℕ → ℕ × ℕ → Type 0
  Comes i end segment =
      (k : ℕ) × (i ≤ k) × (k < end) × IsSegmentOf m (descriptor map descriptor_size k) segment

  first_source :
      (i end : ℕ) (best r : ℕ × ℕ)
      → i < end
      → (r ≡ better m (descriptor map descriptor_size i) best) ⊎ Comes (i + 1) end r
      → (r ≡ best) ⊎ Comes i end r
  first_source i end best r h (inr (k, lo, hi, is)) = inr (k, omega arith, hi, is)
  first_source i end best r h (inl e) =
      let desc = descriptor map descriptor_size i in
      elim (Bool-cases
        ((memory_type m desc == conventional_memory) && ltb best.1 (segment_bytes m desc))) [
          | inr kept ↦ inl (e ∙ rw kept)
          | inl taken ↦
              let e' : r ≡ (phys_addr m desc, segment_bytes m desc) = e ∙ rw taken in
              inr (
                i,
                omega arith,
                h,
                (ground arith, ap (λ (q : ℕ × ℕ). q.0) e', ap (λ (q : ℕ × ℕ). q.1) e'),
              )
        ]

  largest_segment_source :
      (left i end : ℕ) (best : ℕ × ℕ)
      → i + left ≡ end
      → (largest_segment m map descriptor_size left i best ≡ best)
        ⊎ Comes i end (largest_segment m map descriptor_size left i best)
  unfolding largest_segment
  largest_segment_source zero i end best e = inl refl
  largest_segment_source (suc left) i end best e =
      first_source i end best
        (largest_segment m map descriptor_size left (i + 1)
          (better m (descriptor map descriptor_size i) best))
        (omega arith)
        (largest_segment_source left (i + 1) end (better m (descriptor map descriptor_size i) best)
          (omega arith))

-- The search for a place for the bitmap finds a segment at least as large as every entry of
-- conventional memory, and that segment is one of these entries, or none has any pages.
pub largest_segment_lem :
    (m : Memory) (map entries descriptor_size : ℕ)
    → let best = largest_segment m map descriptor_size entries 0 (0, 0) in
      ((k : ℕ)
        → k < entries
        → memory_type m (descriptor map descriptor_size k) ≡ conventional_memory
        → segment_bytes m (descriptor map descriptor_size k) ≤ best.1)
      × ((best ≡ (0, 0))
          ⊎ ((k : ℕ) × (k < entries) × IsSegmentOf m (descriptor map descriptor_size k) best))
largest_segment_lem m map entries descriptor_size = (
  λ k h t.
      largest_segment_bound m map descriptor_size entries 0 k (0, 0) (omega arith) (omega arith) t,
  drop_start (largest_segment_source m map descriptor_size entries 0 entries (0, 0) (omega arith)),
)
  where
    drop_start :
        {best : ℕ × ℕ}
        → (best ≡ (0, 0)) ⊎ Comes m map descriptor_size 0 entries best
        → (best ≡ (0, 0))
          ⊎ ((k : ℕ) × (k < entries) × IsSegmentOf m (descriptor map descriptor_size k) best)
    drop_start (inl e) = inl e
    drop_start (inr (k, lo, hi, is)) = inr (k, hi, is)

-- Once the memory size is known and not 0, asking for it again, of whatever map, gives the same and
-- changes nothing.
pub get_memory_size_again :
    (s : Frames) (map entries descriptor_size map' entries' descriptor_size' : ℕ)
    → let (t, size) = get_memory_size s map entries descriptor_size in
      0 < size → get_memory_size t map' entries' descriptor_size' ≡ (t, size)
unfolding get_memory_size
get_memory_size_again s map entries descriptor_size map' entries' descriptor_size' h =
    elim (Bool-cases (ltb 0 s.memory_map_size)) [
      | inl known ↦ rw (known, known)
      | inr fresh ↦
          let total = sum_pages s.mem map descriptor_size entries 0 s.memory_map_size in
          let some_pages : 0 < total = rw fresh at h in rw (fresh, lt→ltb 0 total some_pages)
    ]
