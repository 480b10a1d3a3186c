-- ===== src/Kernel/Root.antt =====
-- The root table of `PrepareMemory`: a cleared page, which is a tree of tables by itself, and translates
-- nothing.
use mad_os.Kernel.{new_root}
use mad_os.Paging.Map.Tree.{Sound, Tree}
use mad_os.Paging.Map.Entries.{zero_entries}
use mad_os.Paging.Map.Request.{get_outside, request_page-IsBytes, free-Apart}
use mad_os.Paging.Map.Steps.{follow-absent}
use mad_os.Paging.Walk.{entry_at, translate}
use mad_os.Paging.Entry.{present, get_flag}
use mad_os.Paging.Indexer.{page_map_indexer, page_map_indexer_digits}
use mad_os.Base.{
  ℕ, ◌*◌, ◌/◌, ◌≤◌, ◌<◌, ◌≡◌, refl, ◌∙◌, true, false, ◌==◌, if◌then◌else◌, none, arith,
}
use mad_os.Base.Run.{done}
use mad_os.Memory.{Memory, fill}
use mad_os.Memory.Laws.{IsBytes}
use mad_os.MemSet.Correct.{memset-fill}
use mad_os.Bitmap
use mad_os.Frames.{Frames, page_used, page_limit, request_page}
use mad_os.Frames.Request.{Takes, request_page-Takes}

-- The tree that has a root only.
abbrev pub alone : (root : ℕ) → ℕ → ℕ
alone root p = if root == p then 1 else 0

-- `u` holds a new root table in page `k`, which was free.
pub record IsRoot (k : ℕ) (s u : Frames) : Type 0 where
  pub same_bitmap : u.page_bitmap ≡ s.page_bitmap
  pub was_free : page_used s k ≡ false
  pub used : (j : ℕ) → page_used u j ≡ (if k == j then true else page_used s j)
  pub tree : Tree (alone k) u
  pub sound : Sound u
  pub nothing : (w : ℕ) → translate u.mem k w ≡ none

module _ (s t : Frames) (k : ℕ) (sound : Sound s) (takes : Takes k s t (k * 4096))
    (bytes : IsBytes t.mem) where
  abbrev cleared : Memory
  cleared = fill t.mem (k * 4096) 0x1000 0

  abbrev after : Frames
  after = record t { mem = cleared }

  kept_bits : (j : ℕ) → Bitmap.get cleared s.page_bitmap j ≡ Bitmap.get t.mem s.page_bitmap j
  unfolding fill
  kept_bits j =
      get_outside cleared t.mem s.page_bitmap j
        (λ x lo hi. ground (arith, free-Apart s k sound takes.was_free x))

  root-used : (j : ℕ) → page_used after j ≡ (if k == j then true else page_used s j)
  root-used j =
      rw takes.writes.same_bitmap
        (kept_bits j ∙ ground (arith, takes.writes.writes.bits j, takes.within))

  root-Sound : Sound after
  unfolding fill
  root-Sound = record {
    bytes = λ x. ground (arith, bytes x);
    low = λ j h. rw takes.writes.same_bitmap (kept_bits j) ∙ takes.low j h;
    small = ground (arith, takes.writes.same_bitmap, sound.small);
    bitmap_used = λ x lo up. ground (
      arith,
      root-used (x / 4096),
      sound.bitmap_used x (rw takes.writes.same_bitmap at lo) (rw takes.writes.same_bitmap at up),
    );
  }

  only_root : (p : ℕ) → 0 < alone k p → k ≡ p
  only_root p h = ground arith

  root-Tree : Tree (alone k) after
  root-Tree = record {
    table_used = λ p h. root-used p ∙ ground (arith, only_root p h);
    table_apart = λ p h.
        let e : k ≡ p = only_root p h in
        rw (takes.writes.same_bitmap, ← e) (free-Apart s k sound takes.was_free);
    child = λ p i h inner hi there.
        let e : k ≡ p = only_root p h in
        let absent : get_flag (entry_at cleared p i) present ≡ false =
          rw (← e) (zero_entries t.mem k i hi) in
        ground (arith, there, absent);
  }

  root-nothing : (w : ℕ) → translate cleared k w ≡ none
  unfolding translate
  root-nothing w =
      let i = page_map_indexer w in
      let absent = zero_entries t.mem k i.pdp_i (page_map_indexer_digits w).0 in
      rw (follow-absent cleared k i.pdp_i absent) refl

-- If a page is free, the new root lies in a page that was free, at most that one, which is in use now;
-- no other page changes its state.
pub new_root-IsRoot :
    (s : Frames) (p : ℕ)
    → Sound s
    → p < page_limit s
    → page_used s p ≡ false
    → (k : ℕ) × (u : Frames) × (new_root s ≡ done (u, k * 4096)) × (k ≤ p) × IsRoot k s u
unfolding new_root
new_root-IsRoot s p sound inside free =
    let (k, le, takes) =
      request_page-Takes s p sound.low (omega (arith, sound.small)) inside free in
    let t = (request_page s).0 in
    let takes' : Takes k s t (k * 4096) = rw takes.address at takes in
    let bytes = request_page-IsBytes s sound.bytes in
    (
      k,
      after s t k sound takes' bytes,
      rw (takes.address, memset-fill t.mem (k * 4096) 0 0x1000 (omega arith)) refl,
      le,
      record {
        same_bitmap = takes.writes.same_bitmap;
        was_free = takes.was_free;
        used = root-used s t k sound takes' bytes;
        tree = root-Tree s t k sound takes' bytes;
        sound = root-Sound s t k sound takes' bytes;
        nothing = root-nothing s t k sound takes' bytes;
      },
    )
