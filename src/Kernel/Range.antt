-- ===== src/Kernel/Range.antt =====
-- What the loops of `PrepareMemory` come to: a range of addresses mapped to themselves.
use mad_os.Paging.Map.Tree.{Sound, Tree}
use mad_os.Paging.Map.Correct.{Maps}
use mad_os.Paging.Walk.{translate}
use mad_os.Base.{
  ℕ, zero, suc, ◌+◌, ◌*◌, ◌/◌, ◌%◌, ◌^◌, ◌≤◌, ◌<◌, ◌≡◌, ◌⊎◌, inl, inr, refl, ap, ◌∙◌, false, some,
  ◌==◌, if◌then◌else◌, arith,
}
use mad_os.Paging.Indexer.{page_map_indexer}
use native.Mathlib.Decide.{ℕ_discrete}
use mad_os.Memory.{Memory}
use mad_os.Frames.{Frames, page_used}

-- `left` pages from that of `v` on are mapped to themselves, other addresses as before; the pages from
-- `e` on stay as free as they were.
pub record MapsRange (root v left e : ℕ) (s t : Frames) : Type 0 where
  pub same_bitmap : t.page_bitmap ≡ s.page_bitmap
  pub spare : (x : ℕ) → e ≤ x → page_used s x ≡ false → page_used t x ≡ false
  pub own_after : ℕ → ℕ
  pub root_after : own_after root ≡ 1
  pub tree_after : Tree own_after t
  pub sound_after : Sound t
  pub identity :
      (w : ℕ)
      → v / 4096 ≤ w / 4096
      → w / 4096 < v / 4096 + left
      → translate t.mem root w ≡ some (w / 4096)
  pub others :
      (w : ℕ)
      → (w / 4096 % 2 ^ 36 < v / 4096) ⊎ (v / 4096 + left ≤ w / 4096 % 2 ^ 36)
      → translate t.mem root w ≡ translate s.mem root w

pub nothing-MapsRange :
    (own : ℕ → ℕ) (root v e : ℕ) (s : Frames)
    → Tree own s
    → Sound s
    → own root ≡ 1
    → MapsRange root v 0 e s s
nothing-MapsRange own root v e s tree sound is_root = record {
  same_bitmap = refl;
  spare = λ x h free. free;
  own_after = own;
  root_after = is_root;
  tree_after = tree;
  sound_after = sound;
  identity = λ w lo hi. absurd (omega arith);
  others = λ w out. refl;
}

-- A translation depends on the page only.
translate-page :
    (m : Memory) (root v w : ℕ) → v / 4096 ≡ w / 4096 → translate m root v ≡ translate m root w
unfolding translate page_map_indexer
translate-page m root v w e = rw e refl

-- One page, and then the range behind it.
pub range-MapsRange :
    (root v left e e' : ℕ) (s t u : Frames)
    → e ≤ e'
    → v / 4096 + suc left ≤ 2 ^ 36
    → Maps root v v e s t
    → MapsRange root (v + 0x1000) left e' t u
    → MapsRange root v (suc left) e' s u
range-MapsRange root v left e e' s t u le inside one rest = record {
  same_bitmap = rest.same_bitmap ∙ one.same_bitmap;
  spare = λ x h free. rest.spare x h (one.spare x (omega arith) free);
  own_after = rest.own_after;
  root_after = rest.root_after;
  tree_after = rest.tree_after;
  sound_after = rest.sound_after;
  identity = λ w lo hi. elim (ℕ_discrete (w / 4096) (v / 4096)) [
    | yes same ↦
        translate-page u.mem root w v same
        ∙ rest.others v (inl (omega arith))
        ∙ one.translates
        ∙ ap some (omega arith)
    | no ne ↦ rest.identity w (ground arith) (ground arith)
  ];
  others = λ w out. rest.others w (further w out) ∙ one.others w (λ same. elsewhere w out same);
}
  where
    further :
        (w : ℕ)
        → (w / 4096 % 2 ^ 36 < v / 4096) ⊎ (v / 4096 + suc left ≤ w / 4096 % 2 ^ 36)
        → (w / 4096 % 2 ^ 36 < (v + 0x1000) / 4096)
          ⊎ ((v + 0x1000) / 4096 + left ≤ w / 4096 % 2 ^ 36)
    further w (inl h) = inl (omega arith)
    further w (inr h) = inr (omega arith)

    elsewhere :
        (w : ℕ)
        → (w / 4096 % 2 ^ 36 < v / 4096) ⊎ (v / 4096 + suc left ≤ w / 4096 % 2 ^ 36)
        → v / 4096 % 2 ^ 36 ≡ w / 4096 % 2 ^ 36
        → ⊥
    elsewhere w (inl h) same = omega arith
    elsewhere w (inr h) same = omega arith

-- The pages that the rounds behind the first one take: three for each address that starts 2 MiB.
unfoldable pub need : (left v : ℕ) → ℕ
need zero v = 0
need (suc left) v =
    let rest = need left (v + 0x1000) in if v / 4096 % 512 == 0 then 3 + rest else rest

need_sum :
    (left v : ℕ) → need left v + 3 * ((v / 4096 + 511) / 512) ≡ 3 * ((v / 4096 + left + 511) / 512)
unfolding need
need_sum zero v = omega arith
need_sum (suc left) v = ground (arith, need_sum left (v + 0x1000))

pub need_le : (left v : ℕ) → need left v ≤ 3 * (left / 512 + 1)
need_le left v = omega (arith, need_sum left v)
