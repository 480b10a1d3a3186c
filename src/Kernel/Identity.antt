-- ===== src/Kernel/Identity.antt =====
-- The tables that `PrepareMemory` builds translate memory and the frame buffer to themselves.
use mad_os.Kernel.{map_memory_size, build_tables, page_rounds}
use mad_os.Kernel.Rounds.{Spares, map_range-MapsRange}
use mad_os.Kernel.Occupy.{
  allocated-free, allocated-Sound, allocated-Tree, allocated-translate, allocated-limit,
}
use mad_os.Frames.Range.{max_pages}
use mad_os.Kernel.Root.{alone, new_root-IsRoot}
use mad_os.Paging.Map.Tree.{Sound, Tree}
use mad_os.Paging.Walk.{translate}
use mad_os.Base.{
  ℕ, zero, suc, ◌+◌, ◌*◌, ◌/◌, ◌%◌, ◌^◌, ◌≤◌, ◌<◌, ◌≡◌, ◌⊎◌, inl, inr, refl, ap, ◌∙◌, false, some,
  none, u64, ◌&&◌, leb, ltb, Bool-cases, arith,
}
use mad_os.Base.Run.{done}
use mad_os.Frames.{Frames, page_used, page_limit, allocate_pages}

-- The pages that the two loops may take for `left` pages.
abbrev pub tables_for : (left : ℕ) → ℕ
tables_for left = 3 * (left / 512 + 2)

-- The first `left` pages are translated to themselves and nothing else is translated.
pub record IsIdentity (root left : ℕ) (t : Frames) : Type 0 where
  pub own : ℕ → ℕ
  pub is_root : own root ≡ 1
  pub tree : Tree own t
  pub sound : Sound t
  pub identity : (w : ℕ) → w / 4096 < left → translate t.mem root w ≡ some (w / 4096)
  pub nothing_else : (w : ℕ) → left ≤ w / 4096 % 2 ^ 36 → translate t.mem root w ≡ none

map_memory_size-IsIdentity :
    (pages : ℕ → ℕ) (s : Frames) (mem_size : ℕ)
    → ((j : ℕ) → pages j < pages (suc j))
    → Sound s
    → page_rounds mem_size 0 ≤ 2 ^ 36
    → Spares pages 0 (suc (tables_for (page_rounds mem_size 0))) s
    → (k : ℕ) × (t : Frames) × (map_memory_size s mem_size ≡ done (t, k * 4096))
      × (page_used s k ≡ false)
      × (t.page_bitmap ≡ s.page_bitmap)
      × ((x : ℕ)
          → pages (suc (tables_for (page_rounds mem_size 0))) ≤ x
          → page_used s x ≡ false
          → page_used t x ≡ false)
      × IsIdentity k (page_rounds mem_size 0) t
unfolding map_memory_size
map_memory_size-IsIdentity pages s mem_size ascending sound inside spares =
    let left = page_rounds mem_size 0 in
    let n = tables_for left in
    let (free_0, inside_0) = spares 0 (omega arith) (omega arith) in
    let (k, u, run, le, root) = new_root-IsRoot s (pages 0) sound inside_0 free_0 in
    let above : (j : ℕ) → k < pages (suc j) = above_first pages ascending k le in
    let limit : page_limit u ≡ page_limit s = ap (λ b. u64 (b.size * 8)) root.same_bitmap in
    let spares' : Spares (λ j. pages (suc j)) 0 n u = λ j lo hi.
      let (free, within) = spares (suc j) (omega arith) (omega arith) in
      (root.used (pages (suc j)) ∙ ground (arith, above j, free), rw limit within) in
    let (t, run', range) =
      map_range-MapsRange (λ j. pages (suc j)) (alone k) u k 0 left (λ j. ascending (suc j))
        root.tree root.sound (ground arith) (omega arith) spares' in
    (
      k,
      t,
      rw (run, run') refl,
      root.was_free,
      range.same_bitmap ∙ root.same_bitmap,
      (λ x hi free. range.spare x hi (root.used x ∙ ground (arith, above n, free))),
      record {
        own = range.own_after;
        is_root = range.root_after;
        tree = range.tree_after;
        sound = range.sound_after;
        identity = λ w lt. range.identity w (omega arith) (omega arith);
        nothing_else = λ w h. range.others w (inr (omega arith)) ∙ root.nothing w;
      },
    )
  where
    above_first :
        (pages : ℕ → ℕ)
        → ((j : ℕ) → pages j < pages (suc j))
        → (k : ℕ) → k ≤ pages 0
        → (j : ℕ) → k < pages (suc j)
    above_first pages ascending k le zero = omega (arith, ascending 0)
    above_first pages ascending k le (suc j) =
        omega (arith, above_first pages ascending k le j, ascending (suc j))

-- What the tables of `PrepareMemory` do: the pages of memory and of the frame buffer are translated to
-- themselves, and no other address is translated.
pub record Covers (root left base count : ℕ) (t : Frames) : Type 0 where
  pub own : ℕ → ℕ
  pub is_root : own root ≡ 1
  pub tree : Tree own t
  pub sound : Sound t
  pub memory : (w : ℕ) → w / 4096 < left → translate t.mem root w ≡ some (w / 4096)
  pub screen :
      (w : ℕ)
      → base / 4096 ≤ w / 4096
      → w / 4096 < base / 4096 + count
      → translate t.mem root w ≡ some (w / 4096)
  pub nothing_else :
      (w : ℕ)
      → left ≤ w / 4096 % 2 ^ 36
      → (w / 4096 % 2 ^ 36 < base / 4096) ⊎ (base / 4096 + count ≤ w / 4096 % 2 ^ 36)
      → translate t.mem root w ≡ none

-- Where a page lies against the frame buffer.
side :
    (base count x : ℕ)
    → (base / 4096 ≤ x) × (x < base / 4096 + count)
      ⊎ ((x < base / 4096) ⊎ (base / 4096 + count ≤ x))
side base count x = elim (Bool-cases (leb (base / 4096) x && ltb x (base / 4096 + count))) [
  | inl within ↦ inl (ground arith, ground arith)
  | inr out ↦ elim (Bool-cases (leb (base / 4096) x)) [
    | inl above ↦ inr (inr (ground arith))
    | inr below ↦ inr (inl (ground arith))
  ]
]

-- The pages listed, for the tables of memory and then of the frame buffer.
module _ (pages : ℕ → ℕ) (ascending : (j : ℕ) → pages j < pages (suc j)) where
  shifted : (d j : ℕ) → pages (d + j) < pages (d + suc j)
  shifted d j = let e : d + suc j ≡ suc (d + j) = omega arith in rw e (ascending (d + j))

  listed_mono : (d j : ℕ) → pages j ≤ pages (j + d)
  listed_mono zero j = let e : j + 0 ≡ j = omega arith in rw e (omega arith)
  listed_mono (suc d) j =
      let e : j + suc d ≡ suc (j + d) = omega arith in
      rw e (omega (arith, listed_mono d j, ascending (j + d)))

-- If enough free pages in the bitmap are listed in ascending order, three for each 2 MiB of memory and
-- of the frame buffer and thirteen more, none of them a page of the frame buffer, the page numbers of
-- both are below `2 ^ 36`, and the allocator is sound, then `PrepareMemory` builds, without a fault, a
-- tree of tables under a page that was free, and the processor's walk translates the pages of memory
-- and of the frame buffer to themselves and nothing else.
pub build_tables-Covers :
    (pages : ℕ → ℕ) (s : Frames) (mem_size base size : ℕ)
    → ((j : ℕ) → pages j < pages (suc j))
    → Sound s
    → page_rounds mem_size 0 ≤ 2 ^ 36
    → base / 4096 + page_rounds (u64 (base + size)) base ≤ 2 ^ 36
    → base / 4096 + (size / 0x1000 + 1) ≤ max_pages
    → Spares pages 0
        (suc (tables_for (page_rounds mem_size 0))
          + tables_for (page_rounds (u64 (base + size)) base))
        s
    → ((j : ℕ) → (pages j < base / 4096) ⊎ (base / 4096 + (size / 0x1000 + 1) ≤ pages j))
    → (k : ℕ) × (t : Frames) × (build_tables s mem_size base size ≡ done (t, k * 4096))
      × (page_used s k ≡ false)
      × Covers k (page_rounds mem_size 0) base (page_rounds (u64 (base + size)) base) t
unfolding build_tables
build_tables-Covers pages s mem_size base size ascending sound small inside fits spares away =
    let left = page_rounds mem_size 0 in
    let count = page_rounds (u64 (base + size)) base in
    let reserved = size / 0x1000 + 1 in
    let n = suc (tables_for left) in
    let (k, t1, run1, free, same, spare, id) =
      map_memory_size-IsIdentity pages s mem_size ascending sound small
        (λ j lo hi. spares j lo (omega arith)) in
    let t2 = allocate_pages t1 base reserved in
    let limit : page_limit t2 ≡ page_limit s =
      allocated-limit t1 base reserved fits id.sound ∙ ap (λ b. u64 (b.size * 8)) same in
    let spares' : Spares (λ j. pages (n + j)) 0 (tables_for count) t2 = λ j lo hi.
      let (free_j, within) = spares (n + j) (omega arith) (omega arith) in
      (
        allocated-free t1 base reserved fits id.sound (pages (n + j)) (away (n + j))
            (spare (pages (n + j)) (listed_mono pages ascending j n) free_j),
        rw limit within,
      ) in
    let (t, run, range) =
      map_range-MapsRange (λ j. pages (n + j)) id.own t2 k base count (shifted pages ascending n)
        (allocated-Tree t1 base reserved fits id.sound id.own id.tree)
        (allocated-Sound t1 base reserved fits id.sound) id.is_root inside spares' in
    let before : (w : ℕ) → translate t2.mem k w ≡ translate t1.mem k w =
      λ w. allocated-translate t1 base reserved fits id.sound id.own id.tree k w id.is_root in
    (
      k,
      t,
      rw (run1, run),
      free,
      record {
        own = range.own_after;
        is_root = range.root_after;
        tree = range.tree_after;
        sound = range.sound_after;
        memory = λ w lt. elim (side base count (w / 4096)) [
          | inl (lo, hi) ↦ range.identity w lo hi
          | inr out ↦
              let e : w / 4096 % 2 ^ 36 ≡ w / 4096 = omega arith in
              range.others w (rw e out) ∙ before w ∙ id.identity w lt
        ];
        screen = range.identity;
        nothing_else = λ w above out. range.others w out ∙ before w ∙ id.nothing_else w above;
      },
    )
