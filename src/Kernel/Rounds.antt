-- ===== src/Kernel/Rounds.antt =====
-- The loops of `PrepareMemory`: the first address takes three pages at most, and then only the first of
-- each 2 MiB does.
use mad_os.Kernel.{map_range}
use mad_os.Paging.Map.{map_memory}
use mad_os.Paging.Map.Tree.{Sound, Tree}
use mad_os.Paging.Map.Correct.{Maps, map_memory-Maps}
use mad_os.Paging.Map.Again.{map_memory-again}
use mad_os.Paging.Walk.{translate}
use mad_os.Base.{
  ℕ, zero, suc, ◌+◌, ◌-◌, ◌*◌, ◌/◌, ◌%◌, ◌^◌, ◌≤◌, ◌<◌, ◌≡◌, inl, inr, refl, ap, false, some, ◌==◌,
  u64, Bool-cases, arith,
}
use mad_os.Base.Run.{done}
use mad_os.Frames.{Frames, page_used, page_limit}
use mad_os.Kernel.Range.{MapsRange, nothing-MapsRange, range-MapsRange, need, need_le}

Maps-weaker : (root v e e' : ℕ) (s t : Frames) → e ≤ e' → Maps root v v e s t → Maps root v v e' s t
Maps-weaker root v e e' s t le one = record {
  same_bitmap = one.same_bitmap;
  spare = λ x h free. one.spare x (omega arith) free;
  own_after = one.own_after;
  root_after = one.root_after;
  tree_after = one.tree_after;
  sound_after = one.sound_after;
  translates = one.translates;
  others = one.others;
}

-- The pages that `pages` lists, from the `k`-th up to the `n`-th, are free and in the bitmap.
abbrev pub Spares : (ℕ → ℕ) → (k n : ℕ) → Frames → Type 0
Spares pages k n s =
    (j : ℕ) → k ≤ j → j < n → (page_used s (pages j) ≡ false) × (pages j < page_limit s)

module _ (pages : ℕ → ℕ) (ascending : (j : ℕ) → pages j < pages (suc j)) (root n : ℕ) where
  pages_mono : (d j : ℕ) → pages j + d ≤ pages (j + d)
  pages_mono zero j = let e : j + 0 ≡ j = omega arith in rw e (omega arith)
  pages_mono (suc d) j =
      let e : j + suc d ≡ suc (j + d) = omega arith in
      rw e (omega (arith, pages_mono d j, ascending (j + d)))

  pages_lt : (i j : ℕ) → i < j → suc (pages i) ≤ pages j
  pages_lt i j h =
      let e : i + (j - i) ≡ j = omega arith in
      let le : pages i + (j - i) ≤ pages j = rw e at (pages_mono (j - i) i) in omega arith

  -- The spare pages that a step has left.
  Spares-later :
      (k k' e : ℕ) (v : ℕ) (s t : Frames)
      → k ≤ k'
      → Maps root v v e s t
      → ((j : ℕ) → k' ≤ j → j < n → e ≤ pages j)
      → Spares pages k n s
      → Spares pages k' n t
  Spares-later k k' e v s t le one above spares j lo hi =
      let (free, inside) = spares j (omega arith) hi in
      let same : page_limit t ≡ page_limit s = ap (λ b. u64 (b.size * 8)) one.same_bitmap in
      (one.spare (pages j) (above j lo hi) free, rw same inside)

  -- One address with three new tables at most.
  first_step :
      (own : ℕ → ℕ) (s : Frames) (v k : ℕ)
      → Tree own s
      → Sound s
      → own root ≡ 1
      → k + 3 ≤ n
      → Spares pages k n s
      → (t : Frames) × (map_memory s (root * 4096) v v ≡ done t)
        × Maps root v v (pages n) s t
        × Spares pages (k + 3) n t
  first_step own s v k tree sound is_root enough spares =
      let (free_a, in_a) = spares k (omega arith) (omega arith) in
      let (free_b, in_b) = spares (k + 1) (omega arith) (omega arith) in
      let (free_c, in_c) = spares (k + 2) (omega arith) (omega arith) in
      let (t, run, one) =
        map_memory-Maps own s root v v (pages k) (pages (k + 1)) (pages (k + 2)) tree sound is_root
          (omega (arith, pages_lt k (k + 1) (omega arith)))
          (omega (arith, pages_lt (k + 1) (k + 2) (omega arith))) in_c free_a free_b free_c in
      (
        t,
        run,
        Maps-weaker root v (suc (pages (k + 2))) (pages n) s t (pages_lt (k + 2) n (omega arith))
            one,
        Spares-later k (k + 3) (suc (pages (k + 2))) v s t (omega arith) one
            (λ j lo hi. pages_lt (k + 2) j (omega arith)) spares,
      )

  -- One address behind a mapped one.
  next_step :
      (own : ℕ → ℕ) (s : Frames) (v w q k left : ℕ)
      → Tree own s
      → Sound s
      → own root ≡ 1
      → w + 0x1000 ≡ v
      → v / 4096 < 2 ^ 36
      → translate s.mem root w ≡ some q
      → k + need (suc left) v ≤ n
      → Spares pages k n s
      → (t : Frames) × (k' : ℕ) × (map_memory s (root * 4096) v v ≡ done t)
        × Maps root v v (pages n) s t
        × Spares pages k' n t
        × (k' + need left (v + 0x1000) ≤ n)
  unfolding need
  next_step own s v w q k left tree sound is_root behind inside mapped enough spares =
      elim (Bool-cases (v / 4096 % 512 == 0)) [
        | inl first ↦
            let (t, run, one, spares') =
              first_step own s v k tree sound is_root (ground (arith, enough)) spares in
            (t, k + 3, run, one, spares', ground (arith, enough))
        | inr within ↦
            let (t, run, one) =
              map_memory-again own s root v v w q tree sound is_root mapped (ground arith) in
            (
              t,
              k,
              run,
              Maps-weaker root v 0 (pages n) s t (omega arith) one,
              Spares-later k k 0 v s t (omega arith) one (λ j lo hi. omega arith) spares,
              ground (arith, enough),
            )
      ]

  -- The rounds behind the first one.
  next_rounds :
      (left : ℕ) (own : ℕ → ℕ) (s : Frames) (v w q k : ℕ)
      → Tree own s
      → Sound s
      → own root ≡ 1
      → w + 0x1000 ≡ v
      → v / 4096 + left ≤ 2 ^ 36
      → translate s.mem root w ≡ some q
      → k + need left v ≤ n
      → Spares pages k n s
      → (t : Frames) × (map_range left s (root * 4096) v ≡ done t)
        × MapsRange root v left (pages n) s t
  unfolding map_range
  next_rounds zero own s v w q k tree sound is_root behind inside mapped enough spares =
      (s, refl, nothing-MapsRange own root v (pages n) s tree sound is_root)
  next_rounds (suc left) own s v w q k tree sound is_root behind inside mapped enough spares =
      let (t, k', run, one, spares', enough') =
        next_step own s v w q k left tree sound is_root behind (omega arith) mapped enough spares in
      let (u, run', rest) =
        next_rounds left one.own_after t (v + 0x1000) v _ k' one.tree_after one.sound_after
          one.root_after refl (omega arith) one.translates enough' spares' in
      (
        u,
        rw run run',
        range-MapsRange root v left (pages n) (pages n) s t u (omega arith) inside one rest,
      )

-- If the tables under `root` form a tree in pages that the allocator holds, and three free pages are
-- listed in ascending order for each 2 MiB of the range and six more, the loop ends without a fault;
-- then the processor's walk translates each address of the `left` pages from `v` on to itself and every
-- other address as before, and the tables and the allocator again satisfy what was assumed; the pages
-- behind the listed ones stay free.
pub map_range-MapsRange :
    (pages own : ℕ → ℕ) (s : Frames) (root v left : ℕ)
    → ((j : ℕ) → pages j < pages (suc j))
    → Tree own s
    → Sound s
    → own root ≡ 1
    → v / 4096 + left ≤ 2 ^ 36
    → Spares pages 0 (3 * (left / 512 + 2)) s
    → (t : Frames) × (map_range left s (root * 4096) v ≡ done t)
      × MapsRange root v left (pages (3 * (left / 512 + 2))) s t
unfolding map_range
map_range-MapsRange pages own s root v zero ascending tree sound is_root inside spares =
    (s, refl, nothing-MapsRange own root v _ s tree sound is_root)
map_range-MapsRange pages own s root v (suc left) ascending tree sound is_root inside spares =
    let n = 3 * (suc left / 512 + 2) in
    let (t, run, one, spares') =
      first_step pages ascending root n own s v 0 tree sound is_root (omega arith) spares in
    let (u, run', rest) =
      next_rounds pages ascending root n left one.own_after t (v + 0x1000) v _ 3 one.tree_after
        one.sound_after one.root_after refl (omega arith) one.translates
        (omega (arith, need_le left (v + 0x1000))) spares' in
    (
      u,
      rw run run',
      range-MapsRange root v left (pages n) (pages n) s t u (omega arith) inside one rest,
    )
