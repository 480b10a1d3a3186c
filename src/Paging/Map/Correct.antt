-- ===== src/Paging/Map/Correct.antt =====
-- `MapMemory` against the walk of the processor: the address that was mapped is translated to its
-- page, and no other translation changes.
use mad_os.Paging.Map.{map_memory, descend}
use mad_os.Paging.Map.Tree.{Sound, Tree}
use mad_os.Paging.Map.Steps.{Grows, translate-Grows}
use mad_os.Paging.Map.Descend.{Descends, descend-Descends}
use mad_os.Paging.Map.Leaf.{
  mapped, mapped-used, mapped-Sound, mapped-Tree, mapped-found, mapped-follow, translate-mapped,
}
use mad_os.Paging.Walk.{follow, translate}
use mad_os.Paging.Indexer.{PageMapIndexer, page_map_indexer, page_map_indexer_digits}
use mad_os.Base.{
  ℕ, suc, ◌+◌, ◌*◌, ◌/◌, ◌%◌, ◌^◌, ◌≤◌, ◌<◌, ◌≡◌, ◌≢◌, inl, inr, refl, ap, ◌∙◌, false, u64, some,
  arith,
}
use mad_os.Base.Run.{done}
use mad_os.Memory.{Memory}
use mad_os.Frames.{Frames, page_used, page_limit}

-- What was found stays found while the tables grow.
still_found :
    (own : ℕ → ℕ) (m k : Memory) (p i q : ℕ)
    → Grows own m k
    → 0 < own p
    → i < 512
    → follow m p i ≡ some q
    → follow k p i ≡ some q
still_found own m k p i q grows pos hi h = elim (grows p i pos hi) [
  | inl same ↦ same ∙ h
  | inr (_, before, _) ↦ ground (arith, before, h)
]

-- What `MapMemory` leaves: tables in order again, the new translation, and the old ones. The pages from
-- `e` on stay as free as they were.
pub record Maps (root virtual physical e : ℕ) (s t : Frames) : Type 0 where
  pub same_bitmap : t.page_bitmap ≡ s.page_bitmap
  pub spare : (x : ℕ) → e ≤ x → page_used s x ≡ false → page_used t x ≡ false
  pub own_after : ℕ → ℕ
  pub root_after : own_after root ≡ 1
  pub tree_after : Tree own_after t
  pub sound_after : Sound t
  pub translates : translate t.mem root virtual ≡ some (physical / 4096 % 2 ^ 40)
  pub others :
      (w : ℕ)
      → virtual / 4096 % 2 ^ 36 ≢ w / 4096 % 2 ^ 36
      → translate t.mem root w ≡ translate s.mem root w

limit_same :
    (own own' : ℕ → ℕ) (p i a q : ℕ) (s t : Frames)
    → Descends own own' p i a q s t
    → page_limit t ≡ page_limit s
limit_same own own' p i a q s t d = ap (λ b. u64 (b.size * 8)) d.same_bitmap

-- Three steps and the last write, put together.
module _ (own own1 own2 own3 : ℕ → ℕ) (s s1 s2 s3 : Frames)
    (root virtual physical a b c q1 q2 q3 : ℕ) (tree : Tree own s) (is_root : own root ≡ 1)
    (d1 : Descends own own1 root (page_map_indexer virtual).pdp_i a q1 s s1)
    (d2 : Descends own1 own2 q1 (page_map_indexer virtual).pd_i b q2 s1 s2)
    (d3 : Descends own2 own3 q2 (page_map_indexer virtual).pt_i c q3 s2 s3) where
  abbrev i : PageMapIndexer
  i = page_map_indexer virtual

  root_kept : (own1 root ≡ 1) × (own2 root ≡ 1) × (own3 root ≡ 1)
  root_kept =
      let e1 : own1 root ≡ 1 = d1.keeps root (omega arith) ∙ is_root in
      let e2 : own2 root ≡ 1 = d2.keeps root (omega arith) ∙ e1 in
      (e1, e2, d3.keeps root (omega arith) ∙ e2)

  pdp_place : (own1 q1 ≡ 512 + i.pdp_i) × (own2 q1 ≡ 512 + i.pdp_i)
  pdp_place =
      let e1 : own1 q1 ≡ 512 + i.pdp_i = omega (arith, d1.place) in
      (e1, d2.keeps q1 (omega arith) ∙ e1)

  pd_place : own2 q2 ≡ (512 + i.pdp_i) * 512 + i.pd_i
  pd_place = omega (arith, d2.place, pdp_place.0)

  pt_place : own3 q3 ≡ ((512 + i.pdp_i) * 512 + i.pd_i) * 512 + i.pt_i
  pt_place = omega (arith, d3.place, pd_place)

  pub last : 2 ^ 27 ≤ own3 q3
  last = omega (arith, pt_place)

  pub bound : i.p_i < 512
  bound = (page_map_indexer_digits virtual).3

  abbrev result : Frames
  result = mapped own3 s3 d3.tree d3.sound q3 i.p_i physical last bound

  -- What holds of an inner table's entry before the last write holds after it.
  through :
      (x j q : ℕ)
      → own3 x < 2 ^ 27
      → j < 512
      → follow s3.mem x j ≡ some q
      → follow result.mem x j ≡ some q
  through x j q small hj found =
      mapped-follow own3 s3 d3.tree d3.sound q3 i.p_i physical last bound x j hj
        (inl (λ e. omega (arith, ap own3 e, last)))
      ∙ found

  result-translates : translate result.mem root virtual ≡ some (physical / 4096 % 2 ^ 40)
  unfolding translate
  result-translates =
      let (h4, h3, h2, h1, _) = page_map_indexer_digits virtual in
      let found1 =
        still_found own2 s2.mem s3.mem root i.pdp_i q1 d3.grows (omega (arith, root_kept)) h4 (
          still_found own1 s1.mem s2.mem root i.pdp_i q1 d2.grows (omega (arith, root_kept)) h4
            d1.found) in
      let found2 =
        still_found own2 s2.mem s3.mem q1 i.pd_i q2 d3.grows (omega (arith, pdp_place)) h3
          d2.found in
      rw
        (
          through root i.pdp_i q1 (omega (arith, root_kept)) h4 found1,
          through q1 i.pd_i q2 (omega (arith, pdp_place, d3.keeps q1 (omega (arith, pdp_place)))) h3
              found2,
          through q2 i.pt_i q3 (omega (arith, pd_place, d3.keeps q2 (omega (arith, pd_place)))) h2
              d3.found,
        )
        (mapped-found own3 s3 d3.tree d3.sound q3 i.p_i physical last bound)

  result-others :
      (w : ℕ)
      → virtual / 4096 % 2 ^ 36 ≢ w / 4096 % 2 ^ 36
      → translate result.mem root w ≡ translate s.mem root w
  result-others w ne =
      translate-mapped own3 s3 d3.tree d3.sound q3 i.p_i physical last bound root virtual w
        root_kept.2 (refl, pt_place) ne
      ∙ translate-Grows own2 s2 d2.tree s3.mem d3.grows root w root_kept.1
      ∙ translate-Grows own1 s1 d1.tree s2.mem d2.grows root w root_kept.0
      ∙ translate-Grows own s tree s1.mem d1.grows root w is_root

  pub result-run :
      descend s (root * 4096) i.pdp_i ≡ done (s1, q1 * 4096)
      → descend s1 (q1 * 4096) i.pd_i ≡ done (s2, q2 * 4096)
      → descend s2 (q2 * 4096) i.pt_i ≡ done (s3, q3 * 4096)
      → map_memory s (root * 4096) virtual physical ≡ done result
  unfolding map_memory
  result-run run1 run2 run3 = rw (run1, run2, run3)

  pub result-Maps : (e : ℕ) → a ≤ e → b ≤ e → c ≤ e → Maps root virtual physical e s result
  result-Maps e ha hb hc = record {
    same_bitmap = d3.same_bitmap ∙ d2.same_bitmap ∙ d1.same_bitmap;
    spare = λ x h unused.
        mapped-used own3 s3 d3.tree d3.sound q3 i.p_i physical last bound x
        ∙ d3.spare x (omega arith) (d2.spare x (omega arith) (d1.spare x (omega arith) unused));
    own_after = own3;
    root_after = root_kept.2;
    tree_after = mapped-Tree own3 s3 d3.tree d3.sound q3 i.p_i physical last bound;
    sound_after = mapped-Sound own3 s3 d3.tree d3.sound q3 i.p_i physical last bound;
    translates = result-translates;
    others = result-others;
  }

-- If the tables under page `root` form a tree in pages that the allocator holds, and three pages
-- `a < b < c` are free, then `MapMemory` ends, without a fault. Then the walk from `root` translates the
-- virtual address to the physical one's page (its number cut to 40 bits), every address in another
-- page is translated as before, or still not at all, no page above `c` is taken, and the tables and the
-- allocator again satisfy what was assumed of them.
pub map_memory-Maps :
    (own : ℕ → ℕ) (s : Frames) (root virtual physical a b c : ℕ)
    → Tree own s
    → Sound s
    → own root ≡ 1
    → a < b
    → b < c
    → c < page_limit s
    → page_used s a ≡ false
    → page_used s b ≡ false
    → page_used s c ≡ false
    → (t : Frames) × (map_memory s (root * 4096) virtual physical ≡ done t)
      × Maps root virtual physical (suc c) s t
map_memory-Maps own s root virtual physical a b c tree sound is_root ab bc limit free_a free_b
      free_c =
    let i = page_map_indexer virtual in
    let (h4, h3, h2, h1, _) = page_map_indexer_digits virtual in
    let (q1, own1, s1, run1, d1) =
      descend-Descends own s tree sound root i.pdp_i a (omega arith) (omega arith) h4 (omega arith)
        free_a in
    let limit1 = limit_same own own1 root i.pdp_i (suc a) q1 s s1 d1 in
    let (q2, own2, s2, run2, d2) =
      descend-Descends own1 s1 d1.tree d1.sound q1 i.pd_i b (omega (arith, d1.place))
        (omega (arith, d1.place)) h3 (omega (arith, limit1)) (d1.spare b ab free_b) in
    let limit2 = limit_same own1 own2 q1 i.pd_i (suc b) q2 s1 s2 d2 in
    let (q3, own3, s3, run3, d3) =
      descend-Descends own2 s2 d2.tree d2.sound q2 i.pt_i c (omega (arith, d2.place, d1.place))
        (omega (arith, d2.place, d1.place)) h2 (omega (arith, limit1, limit2))
        (d2.spare c bc (d1.spare c (omega arith) free_c)) in
    (
      _,
      result-run own own1 own2 own3 s s1 s2 s3 root virtual physical (suc a) (suc b) (suc c) q1 q2
          q3 tree is_root d1 d2 d3 run1 run2 run3,
      result-Maps own own1 own2 own3 s s1 s2 s3 root virtual physical (suc a) (suc b) (suc c) q1 q2
          q3 tree is_root d1 d2 d3 (suc c) (omega arith) (omega arith) (omega arith),
    )
