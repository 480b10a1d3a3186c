-- ===== src/Paging/Map/Steps.antt =====
-- A step that gives a table an entry for an empty new table changes no translation.
use mad_os.Paging.Map.Tree.{Tree}
use mad_os.Paging.Walk.{entry_at, follow, translate, ◌>>=◌}
use mad_os.Paging.Entry.{present, get_flag, get_address}
use mad_os.Paging.Indexer.{page_map_indexer, page_map_indexer_digits}
use mad_os.Base.{
  ℕ, ◌+◌, ◌*◌, ◌^◌, ◌≤◌, ◌<◌, ◌≡◌, ◌⊎◌, inl, inr, sym, ◌∙◌, true, false, Option, some, none, arith,
  Bool-cases, Option-cases,
}
use mad_os.Memory.{Memory}
use mad_os.Frames.{Frames}

pub follow-present :
    (m : Memory) (p i : ℕ)
    → get_flag (entry_at m p i) present ≡ true
    → follow m p i ≡ some (get_address (entry_at m p i))
unfolding follow
follow-present m p i h = rw h

pub follow-absent :
    (m : Memory) (p i : ℕ) → get_flag (entry_at m p i) present ≡ false → follow m p i ≡ none
unfolding follow
follow-absent m p i h = rw h

pub follow_cong :
    (m k : Memory) (p i : ℕ) → entry_at m p i ≡ entry_at k p i → follow m p i ≡ follow k p i
unfolding follow
follow_cong m k p i e = rw e

-- What a followed entry says of its target.
pub follow-own :
    (own : ℕ → ℕ) (s : Frames) (p i q : ℕ)
    → Tree own s
    → 0 < own p
    → own p < 2 ^ 27
    → i < 512
    → follow s.mem p i ≡ some q
    → own q ≡ own p * 512 + i
follow-own own s p i q tree pos inner hi h =
    elim (Bool-cases (get_flag (entry_at s.mem p i) present)) [
      | inl there ↦
          let e : some (get_address (entry_at s.mem p i)) ≡ some q =
            sym (follow-present s.mem p i there) ∙ h in
          ground (arith, e, tree.child p i pos inner hi there)
      | inr absent ↦ ground (arith, h, follow-absent s.mem p i absent)
    ]

abbrev pub Empty : Memory → ℕ → Type 0
Empty m k = (j : ℕ) → j < 512 → follow m k j ≡ none

-- Each entry of a table is as it was, or names a new table that is empty.
abbrev pub Grows : (own : ℕ → ℕ) (m k : Memory) → Type 0
Grows own m k =
    (p i : ℕ)
    → 0 < own p
    → i < 512
    → (follow k p i ≡ follow m p i)
      ⊎ ((own p < 2 ^ 27) × (follow m p i ≡ none) × ((q : ℕ) × (follow k p i ≡ some q) × Empty k q))

module _ (own : ℕ → ℕ) (s : Frames) (tree : Tree own s) (k : Memory)
    (grows : Grows own s.mem k) where
  -- One level of the walk, given the levels below it.
  lift :
      (p i : ℕ) (f g : ℕ → Option ℕ)
      → 0 < own p
      → own p < 2 ^ 27
      → i < 512
      → ((q : ℕ) → own q ≡ own p * 512 + i → g q ≡ f q)
      → ((q : ℕ) → Empty k q → g q ≡ none)
      → (follow k p i >>= g) ≡ (follow s.mem p i >>= f)
  lift p i f g pos inner hi below empty = elim (grows p i pos hi) [
    | inr (_, before, (q, now, new)) ↦ rw (before, now) (empty q new)
    | inl same ↦ elim (Option-cases (follow s.mem p i)) [
      | inl nothing ↦ rw (same, nothing)
      | inr (q, found) ↦ rw (same, found) (below q (follow-own own s p i q tree pos inner hi found))
    ]
  ]

  leaf : (p i : ℕ) → 2 ^ 27 ≤ own p → i < 512 → follow k p i ≡ follow s.mem p i
  leaf p i last hi = ground (arith, grows p i (omega arith) hi)

  -- The walk from a table of the last level but one, and of the level above it.
  from_pd :
      (p i j : ℕ)
      → 2 ^ 18 ≤ own p
      → own p < 2 ^ 19
      → i < 512
      → j < 512
      → (do pt ← follow k p i; follow k pt j) ≡ (do pt ← follow s.mem p i; follow s.mem pt j)
  from_pd p i j lo up hi hj =
      lift p i (λ pt. follow s.mem pt j) (λ pt. follow k pt j) (omega arith) (omega arith) hi
        (λ q e. leaf q j (omega arith) hj) (λ q new. new j hj)

  from_pdp :
      (p h i j : ℕ)
      → 512 ≤ own p
      → own p < 1024
      → h < 512
      → i < 512
      → j < 512
      → (do pd ← follow k p h; pt ← follow k pd i; follow k pt j)
        ≡ (do pd ← follow s.mem p h; pt ← follow s.mem pd i; follow s.mem pt j)
  from_pdp p h i j lo up hh hi hj =
      lift p h (λ pd. follow s.mem pd i >>= λ pt. follow s.mem pt j)
        (λ pd. follow k pd i >>= λ pt. follow k pt j) (omega arith) (omega arith) hh
        (λ q e. from_pd q i j (omega arith) (omega arith) hi hj) (λ q new. rw (new i hi))

  pub translate-Grows : (root v : ℕ) → own root ≡ 1 → translate k root v ≡ translate s.mem root v
  unfolding translate
  translate-Grows root v is_root =
      let i = page_map_indexer v in
      let (h4, h3, h2, h1, _) = page_map_indexer_digits v in
      lift root i.pdp_i
        (λ pdp.
          follow s.mem pdp i.pd_i >>= λ pd. follow s.mem pd i.pt_i >>= λ pt. follow s.mem pt i.p_i)
        (λ pdp. follow k pdp i.pd_i >>= λ pd. follow k pd i.pt_i >>= λ pt. follow k pt i.p_i)
        (omega arith) (omega arith) h4
        (λ q e. from_pdp q i.pd_i i.pt_i i.p_i (omega arith) (omega arith) h3 h2 h1)
        (λ q new. rw (new i.pd_i h3))
