-- ===== src/Paging/Map/Again.antt =====
-- `MapMemory` where an address of the same 2 MiB is mapped already: the three tables are there, and no
-- page is taken.
use mad_os.Paging.Map.{map_memory, descend}
use mad_os.Paging.Map.Tree.{Sound, Tree}
use mad_os.Paging.Map.Steps.{follow-present, follow-absent}
use mad_os.Paging.Map.Descend.{Descends, old-Descends, descend-old}
use mad_os.Paging.Map.Correct.{Maps, result-Maps, result-run}
use mad_os.Paging.Walk.{entry_at, follow, translate, ◌>>=◌}
use mad_os.Paging.Entry.{present, get_flag, get_address}
use mad_os.Paging.Indexer.{page_map_indexer, page_map_indexer_digits}
use mad_os.Base.{
  ℕ, ◌*◌, ◌/◌, ◌%◌, ◌^◌, ◌<◌, ◌≡◌, inl, inr, refl, true, Option, some, none, arith, Bool-cases,
}
use mad_os.Base.Run.{done}
use mad_os.Memory.{Memory}
use mad_os.Frames.{Frames}

bind_some :
    (o : Option ℕ) (f : ℕ → Option ℕ) (q : ℕ)
    → (o >>= f) ≡ some q
    → (a : ℕ) × (o ≡ some a) × (f a ≡ some q)
bind_some none f q h = cc
bind_some (some a) f q h = (a, refl, h)

follow_some :
    (m : Memory) (p i q : ℕ)
    → follow m p i ≡ some q
    → (get_flag (entry_at m p i) present ≡ true) × (get_address (entry_at m p i) ≡ q)
follow_some m p i q h = elim (Bool-cases (get_flag (entry_at m p i) present)) [
  | inl there ↦ (there, ground (arith, follow-present m p i there, h))
  | inr absent ↦ ground (arith, follow-absent m p i absent, h)
]

-- The tables on the way to an address that is translated.
tables_of :
    (m : Memory) (root v q : ℕ)
    → translate m root v ≡ some q
    → let i = page_map_indexer v in
      (q1 : ℕ) × (q2 : ℕ) × (q3 : ℕ) × (follow m root i.pdp_i ≡ some q1)
      × (follow m q1 i.pd_i ≡ some q2)
      × (follow m q2 i.pt_i ≡ some q3)
unfolding translate
tables_of m root v q h =
    let i = page_map_indexer v in
    let (q1, f1, h1) =
      bind_some (follow m root i.pdp_i)
        (λ pdp. follow m pdp i.pd_i >>= λ pd. follow m pd i.pt_i >>= λ pt. follow m pt i.p_i) q h in
    let (q2, f2, h2) =
      bind_some (follow m q1 i.pd_i) (λ pd. follow m pd i.pt_i >>= λ pt. follow m pt i.p_i) q h1 in
    let (q3, f3, h3) = bind_some (follow m q2 i.pt_i) (λ pt. follow m pt i.p_i) q h2 in
    (q1, q2, q3, f1, f2, f3)

-- The first three indices are those of the number of the 2 MiB.
same_tables :
    (v w : ℕ)
    → v / 2 ^ 21 % 2 ^ 27 ≡ w / 2 ^ 21 % 2 ^ 27
    → let i = page_map_indexer v in
      let j = page_map_indexer w in (j.pdp_i ≡ i.pdp_i) × (j.pd_i ≡ i.pd_i) × (j.pt_i ≡ i.pt_i)
same_tables v w h = omega (arith, page_map_indexer_digits v, page_map_indexer_digits w)

-- A step through an entry that is followed.
step_through :
    (own : ℕ → ℕ) (s : Frames) (p i q : ℕ)
    → Tree own s
    → Sound s
    → 0 < own p
    → own p < 2 ^ 27
    → i < 512
    → follow s.mem p i ≡ some q
    → (descend s (p * 4096) i ≡ done (s, q * 4096)) × Descends own own p i 0 q s s
step_through own s p i q tree sound pos inner hi h =
    let (there, target) = follow_some s.mem p i q h in
    (
      rw target at (descend-old own s tree sound p i 0 pos inner hi there),
      rw target at (old-Descends own s tree sound p i 0 pos inner hi there),
    )

pub map_memory-again :
    (own : ℕ → ℕ) (s : Frames) (root virtual physical w q : ℕ)
    → Tree own s
    → Sound s
    → own root ≡ 1
    → translate s.mem root w ≡ some q
    → w / 2 ^ 21 % 2 ^ 27 ≡ virtual / 2 ^ 21 % 2 ^ 27
    → (t : Frames) × (map_memory s (root * 4096) virtual physical ≡ done t)
      × Maps root virtual physical 0 s t
map_memory-again own s root virtual physical w q tree sound is_root mapped near =
    let i = page_map_indexer virtual in
    let (h4, h3, h2, h1, _) = page_map_indexer_digits virtual in
    let (e4, e3, e2) = same_tables w virtual near in
    let (q1, q2, q3, f1, f2, f3) = tables_of s.mem root w q mapped in
    let (run1, d1) =
      step_through own s root i.pdp_i q1 tree sound (omega arith) (omega arith) h4 (rw e4 f1) in
    let (run2, d2) =
      step_through own s q1 i.pd_i q2 tree sound (omega (arith, d1.place)) (omega (arith, d1.place))
        h3 (rw e3 f2) in
    let (run3, d3) =
      step_through own s q2 i.pt_i q3 tree sound (omega (arith, d2.place, d1.place))
        (omega (arith, d2.place, d1.place)) h2 (rw e2 f3) in
    (
      _,
      result-run own own own own s s s s root virtual physical 0 0 0 q1 q2 q3 tree is_root d1 d2 d3
          run1 run2 run3,
      result-Maps own own own own s s s s root virtual physical 0 0 0 q1 q2 q3 tree is_root d1 d2 d3
          0 (omega arith) (omega arith) (omega arith),
    )
