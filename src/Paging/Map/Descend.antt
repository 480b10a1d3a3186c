-- ===== src/Paging/Map/Descend.antt =====
-- One step down the tables keeps their tree, finds or makes the next table, and moves nothing.
use mad_os.Paging.Map.{descend}
use mad_os.Paging.Map.Tree.{Apart, Sound, Tree}
use mad_os.Paging.Map.Request.{Links, new_table-Links, request_page-IsBytes, free-Apart}
use mad_os.Paging.Map.Steps.{Grows, follow-present, follow-absent, follow_cong}
use mad_os.Paging.Walk.{entry_at, follow}
use mad_os.Paging.Entry.{present, get_flag, get_address}
use mad_os.Paging.Entry.Laws.{get_address-lt}
use mad_os.Base.{
  ℕ, suc, ◌+◌, ◌*◌, ◌^◌, ◌≤◌, ◌<◌, ◌≡◌, ◌≢◌, ◌⊎◌, inl, inr, refl, ap, ◌∙◌, true, false, ◌==◌,
  if◌then◌else◌, u64, ◌<<◌, some, arith, Bool-cases,
}
use mad_os.Base.Run.{done}
use native.Mathlib.Decide.{ℕ_discrete}
use mad_os.MemSet.Correct.{memset-fill}
use mad_os.Frames.{Frames, page_used, page_limit, request_page}
use mad_os.Frames.Request.{Takes, request_page-Takes}

-- What a step comes to that leads from the table in page `p` to the table in page `q`, where the
-- pages from `a` on stay as free as they were.
pub record Descends (own own' : ℕ → ℕ) (p i a q : ℕ) (s t : Frames) : Type 0 where
  pub place : own' q ≡ own p * 512 + i
  pub keeps : (x : ℕ) → 0 < own x → own' x ≡ own x
  pub tree : Tree own' t
  pub sound : Sound t
  pub same_bitmap : t.page_bitmap ≡ s.page_bitmap
  pub found : follow t.mem p i ≡ some q
  pub grows : Grows own s.mem t.mem
  pub spare : (b : ℕ) → a ≤ b → page_used s b ≡ false → page_used t b ≡ false

-- The tree with the new table in page `k`.
abbrev with_table : (own : ℕ → ℕ) (k place : ℕ) → ℕ → ℕ
with_table own k place x = if x == k then place else own x

module _ (own : ℕ → ℕ) (s u : Frames) (tree : Tree own s) (sound : Sound s) (k p i : ℕ)
    (free : page_used s k ≡ false) (links : Links k p i s u) (pos : 0 < own p)
    (inner : own p < 2 ^ 27) (hi : i < 512) where
  abbrev own' : ℕ → ℕ
  own' = with_table own k (own p * 512 + i)

  not_new : (x : ℕ) → 0 < own x → x ≢ k
  not_new x h e =
      let used : page_used s x ≡ true = tree.table_used x h in
      let used' : page_used s k ≡ true = rw e at used in ground (arith, used', free)

  same_entry :
      (x j : ℕ) → 0 < own x → j < 512 → (p ≢ x) ⊎ (i ≢ j) → entry_at u.mem x j ≡ entry_at s.mem x j
  same_entry x j h hj away = links.other x j hj (not_new x h) (tree.table_apart x h) away

  own'-old : (x : ℕ) → 0 < own x → own' x ≡ own x
  own'-old x h = ground (arith, not_new x h)

  linked_or_away : (x j : ℕ) → ((p ≡ x) × (i ≡ j)) ⊎ ((p ≢ x) ⊎ (i ≢ j))
  linked_or_away x j = elim (ℕ_discrete p x) [
    | no ne ↦ inr (inl ne)
    | yes e ↦ elim (ℕ_discrete i j) [ yes e' ↦ inl (e, e') | no ne ↦ inr (inr ne) ]
  ]

  old_child :
      (x j : ℕ)
      → 0 < own x
      → own x < 2 ^ 27
      → j < 512
      → get_flag (entry_at u.mem x j) present ≡ true
      → own' (get_address (entry_at u.mem x j)) ≡ own x * 512 + j
  old_child x j h small hj there = elim (linked_or_away x j) [
    | inl (e, e') ↦ rw (← e, ← e', links.target) (ground arith)
    | inr away ↦
        let same = same_entry x j h hj away in
        let there' : get_flag (entry_at s.mem x j) present ≡ true = rw same at there in
        let target = tree.child x j h small hj there' in
        rw same (own'-old (get_address (entry_at s.mem x j)) (omega (arith, target)) ∙ target)
  ]

  new-Tree : Tree own' u
  new-Tree = record {
    table_used = λ x h. ground (arith, links.used x, tree.table_used x);
    table_apart = λ x h. rw links.same_bitmap (apart x h);
    child = child;
  }
    where
      apart : (x : ℕ) → 0 < own' x → Apart s.page_bitmap x
      apart x h = elim (ℕ_discrete x k) [
        | yes e ↦ rw e (free-Apart s k sound free)
        | no ne ↦ tree.table_apart x (ground arith)
      ]

      child :
          (x j : ℕ)
          → 0 < own' x
          → own' x < 2 ^ 27
          → j < 512
          → get_flag (entry_at u.mem x j) present ≡ true
          → own' (get_address (entry_at u.mem x j)) ≡ own' x * 512 + j
      child x j h small hj there = elim (ℕ_discrete x k) [
        | yes e ↦
            let there' : get_flag (entry_at u.mem k j) present ≡ true = rw e at there in
            ground (arith, links.fresh j hj, there')
        | no ne ↦
            let old : own' x ≡ own x = ground arith in
            rw old (old_child x j (omega (arith, old)) (omega (arith, old)) hj there)
      ]

  new_found : follow u.mem p i ≡ some k
  new_found = follow-present u.mem p i links.link ∙ ap some links.target

  new-Grows : get_flag (entry_at s.mem p i) present ≡ false → Grows own s.mem u.mem
  new-Grows absent x j h hj = elim (linked_or_away x j) [
    | inr away ↦ inl (follow_cong u.mem s.mem x j (same_entry x j h hj away))
    | inl (e, e') ↦ inr (
        rw (← e, ← e')
          (
            inner,
            follow-absent s.mem p i absent,
            (k, new_found, λ j' hj'. follow-absent u.mem k j' (links.fresh j' hj')),
          ))
  ]

  -- The step that makes a table, for a free page `a` that is not below `k`.
  new-Descends :
      (a : ℕ)
      → k ≤ a
      → get_flag (entry_at s.mem p i) present ≡ false
      → Descends own own' p i (suc a) k s u
  new-Descends a le absent = record {
    place = ground arith;
    keeps = own'-old;
    tree = new-Tree;
    sound = links.sound;
    same_bitmap = links.same_bitmap;
    found = new_found;
    grows = new-Grows absent;
    spare = λ b lt unused. ground (arith, links.used b);
  }

module _ (own : ℕ → ℕ) (s : Frames) (tree : Tree own s) (sound : Sound s) (p i a : ℕ)
    (pos : 0 < own p) (inner : own p < 2 ^ 27) (hi : i < 512)
    (there : get_flag (entry_at s.mem p i) present ≡ true) where
  -- The step that finds its table.
  pub old-Descends : Descends own own p i a (get_address (entry_at s.mem p i)) s s
  old-Descends = record {
    place = tree.child p i pos inner hi there;
    keeps = λ x h. refl;
    tree = tree;
    sound = sound;
    same_bitmap = refl;
    found = follow-present s.mem p i there;
    grows = λ x j h hj. inl refl;
    spare = λ b lt unused. unused;
  }

  pub descend-old : descend s (p * 4096) i ≡ done (s, get_address (entry_at s.mem p i) * 4096)
  unfolding descend
  descend-old =
      let entry = entry_at s.mem p i in
      let address : u64 (get_address entry << 12) ≡ get_address entry * 4096 =
        omega (arith, get_address-lt entry) in
      rw (there, descend, address)

module _ (own : ℕ → ℕ) (s : Frames) (tree : Tree own s) (sound : Sound s) (p i a : ℕ)
    (pos : 0 < own p) (inner : own p < 2 ^ 27) (hi : i < 512) (within : a < page_limit s)
    (free : page_used s a ≡ false) where
  abbrev Outcome : Type 0
  Outcome =
      (q : ℕ) × (own' : ℕ → ℕ) × (t : Frames) × (descend s (p * 4096) i ≡ done (t, q * 4096))
      × Descends own own' p i (suc a) q s t

  descend-new : get_flag (entry_at s.mem p i) present ≡ false → Outcome
  unfolding descend
  descend-new absent =
      let (k, le, takes) =
        request_page-Takes s a sound.low (omega (arith, sound.small)) within free in
      let takes' : Takes k s (request_page s).0 (k * 4096) = rw takes.address at takes in
      let differ : p ≢ k = λ e. ground (arith, takes.was_free, rw e at (tree.table_used p pos)) in
      let links =
        new_table-Links s (request_page s).0 k p i sound takes' (request_page-IsBytes s sound.bytes)
          hi differ (tree.table_apart p pos) in
      (
        k,
        with_table own k (own p * 512 + i),
        _,
        rw (
          absent,
          descend,
          takes.address,
          memset-fill (request_page s).0.mem (k * 4096) 0 0x1000 (omega arith),
        ),
        new-Descends own s _ tree sound k p i takes.was_free links pos inner hi a le absent,
      )

  -- A step finds or makes the table that it leads to.
  pub descend-Descends : Outcome
  descend-Descends = elim (Bool-cases (get_flag (entry_at s.mem p i) present)) [
    | inl there ↦ (
      get_address (entry_at s.mem p i),
      own,
      s,
      descend-old own s tree sound p i a pos inner hi there,
      old-Descends own s tree sound p i (suc a) pos inner hi there,
    )
    | inr absent ↦ descend-new absent
  ]
