-- ===== src/Paging/Map/Leaf.antt =====
-- The last write of `MapMemory`: an entry of a table of the last level.
use mad_os.Paging.Map.{linked}
use mad_os.Paging.Map.Entries.{linked_lem, entry_at-store_self, entry_at-store_ne}
use mad_os.Paging.Map.Tree.{Sound, Tree}
use mad_os.Paging.Map.Request.{get_outside}
use mad_os.Paging.Map.Steps.{follow-present, follow_cong, follow-own}
use mad_os.Paging.Walk.{entry_at, follow, translate, ◌>>=◌}
use mad_os.Paging.Entry.{present, get_flag, get_address}
use mad_os.Paging.Indexer.{page_map_indexer, page_map_indexer_digits}
use mad_os.Base.{
  ℕ, ◌+◌, ◌*◌, ◌/◌, ◌%◌, ◌^◌, ◌≤◌, ◌<◌, ◌≡◌, ◌≢◌, ◌⊎◌, inl, inr, ap, ◌∙◌, true, Option, some, arith,
  Option-cases,
}
use native.Mathlib.Decide.{ℕ_discrete}
use mad_os.Memory.{store64}
use mad_os.Memory.Laws.{store_frame, store-IsBytes, load-lt}
use mad_os.Frames.{Frames, page_used}

module _ (own : ℕ → ℕ) (s : Frames) (tree : Tree own s) (sound : Sound s) (pt j physical : ℕ)
    (last : 2 ^ 27 ≤ own pt) (hj : j < 512) where
  abbrev word : ℕ
  word = linked (entry_at s.mem pt j) physical

  abbrev pub mapped : Frames
  mapped = record s { mem = store64 s.mem (pt * 4096 + j * 8) word }

  word_lem :
      (get_flag word present ≡ true)
      × (get_address word ≡ physical / 4096 % 2 ^ 40)
      × (word < 2 ^ 64)
  word_lem =
      linked_lem (entry_at s.mem pt j) physical (load-lt 8 s.mem (pt * 4096 + j * 8) sound.bytes)

  outside : (x : ℕ) → x / 4096 ≢ pt → mapped.mem x ≡ s.mem x
  outside x ne = store_frame 8 s.mem (pt * 4096 + j * 8) word x (ground (arith, ne))

  pub mapped-used : (i : ℕ) → page_used mapped i ≡ page_used s i
  mapped-used i =
      get_outside mapped.mem s.mem s.page_bitmap i
        (λ x lo up. outside x (λ e. ground (arith, tree.table_apart pt (omega arith) x e)))

  mapped-entry :
      (x i : ℕ) → i < 512 → (pt ≢ x) ⊎ (j ≢ i) → entry_at mapped.mem x i ≡ entry_at s.mem x i
  mapped-entry x i hi away = entry_at-store_ne s.mem pt j x i word hj hi away

  pub mapped-Sound : Sound mapped
  mapped-Sound = record {
    bytes = store-IsBytes 8 s.mem (pt * 4096 + j * 8) word sound.bytes;
    low = λ i h. mapped-used i ∙ sound.low i h;
    small = sound.small;
    bitmap_used = λ x lo up. mapped-used (x / 4096) ∙ sound.bitmap_used x lo up;
  }

  not_last : (x : ℕ) → own x < 2 ^ 27 → pt ≢ x
  not_last x small e = omega (arith, ap own e)

  pub mapped-Tree : Tree own mapped
  mapped-Tree = record {
    table_used = λ x h. mapped-used x ∙ tree.table_used x h;
    table_apart = tree.table_apart;
    child = λ x i h small hi there.
        let same = mapped-entry x i hi (inl (not_last x small)) in
        rw same (tree.child x i h small hi (rw same at there));
  }

  pub mapped-found : follow mapped.mem pt j ≡ some (physical / 4096 % 2 ^ 40)
  mapped-found =
      let self = entry_at-store_self s.mem pt j word word_lem.2 in
      follow-present mapped.mem pt j (ap (λ e. get_flag e present) self ∙ word_lem.0)
      ∙ ap some (ap get_address self ∙ word_lem.1)

  pub mapped-follow :
      (x i : ℕ) → i < 512 → (pt ≢ x) ⊎ (j ≢ i) → follow mapped.mem x i ≡ follow s.mem x i
  mapped-follow x i hi away = follow_cong mapped.mem s.mem x i (mapped-entry x i hi away)

  lift_same :
      (p i : ℕ) (f g : ℕ → Option ℕ)
      → 0 < own p
      → own p < 2 ^ 27
      → i < 512
      → ((q : ℕ) → own q ≡ own p * 512 + i → g q ≡ f q)
      → (follow mapped.mem p i >>= g) ≡ (follow s.mem p i >>= f)
  lift_same p i f g pos small hi below =
      let same = mapped-follow p i hi (inl (not_last p small)) in
      elim (Option-cases (follow s.mem p i)) [
        | inl nothing ↦ rw (same, nothing)
        | inr (q, found) ↦
            rw (same, found) (below q (follow-own own s p i q tree pos small hi found))
      ]

  -- The other addresses are translated as before.
  pub translate-mapped :
      (root v w : ℕ)
      → own root ≡ 1
      → (let i = page_map_indexer v in
          (j ≡ i.p_i) × (own pt ≡ ((512 + i.pdp_i) * 512 + i.pd_i) * 512 + i.pt_i))
      → v / 4096 % 2 ^ 36 ≢ w / 4096 % 2 ^ 36
      → translate mapped.mem root w ≡ translate s.mem root w
  unfolding translate
  translate-mapped root v w is_root (ej, place) ne =
      let i = page_map_indexer w in
      let (h4, h3, h2, h1, digits) = page_map_indexer_digits w in
      let (g4, g3, g2, g1, digits') = page_map_indexer_digits v in
      let away : (q : ℕ)
          → own q ≡ ((512 + i.pdp_i) * 512 + i.pd_i) * 512 + i.pt_i
          → (pt ≢ q) ⊎ (j ≢ i.p_i) =
        λ q e. elim (ℕ_discrete pt q) [
          | no apart ↦ inl apart
          | yes eq ↦ inr (λ e'. ne (omega (arith, ap own eq)))
        ] in
      lift_same root i.pdp_i
        (λ pdp.
          follow s.mem pdp i.pd_i >>= λ pd. follow s.mem pd i.pt_i >>= λ q. follow s.mem q i.p_i)
        (λ pdp. follow mapped.mem pdp i.pd_i >>= λ pd.
          follow mapped.mem pd i.pt_i >>= λ q. follow mapped.mem q i.p_i)
        (omega arith) (omega arith) h4
        (λ q1 e1.
          lift_same q1 i.pd_i (λ pd. follow s.mem pd i.pt_i >>= λ q. follow s.mem q i.p_i)
            (λ pd. follow mapped.mem pd i.pt_i >>= λ q. follow mapped.mem q i.p_i) (omega arith)
            (omega arith) h3
            (λ q2 e2.
              lift_same q2 i.pt_i (λ q. follow s.mem q i.p_i) (λ q. follow mapped.mem q i.p_i)
                (omega arith) (omega arith) h2
                (λ q3 e3. mapped-follow q3 i.p_i h1 (away q3 (omega arith)))))
