-- ===== src/Storage/Sectors.antt =====
-- `GetFreeSector` finds the first sector that is marked as free, and leaves it so.
use mad_os.Base.{
  ℕ, zero, suc, ◌+◌, ◌-◌, ◌/◌, ◌≤◌, ◌<◌, ◌≡◌, ◌≢◌, inl, inr, refl, ap, fun_ext, ◌==◌, Option, none,
  some, Bool-cases, arith,
}
use native.Mathlib.Decide.{ℕ_discrete}
use mad_os.Memory.{Memory, store8}
use mad_os.Storage.{free_sector_loop, get_free_sector}

-- How the search ends: at the first sector with a zero byte, or at none.
pub data Free (m : Memory) (sectors lo hi : ℕ) (found : Option ℕ) : Type 0 where
  first :
      (i : ℕ)
      → lo ≤ i
      → i < hi
      → m (sectors + i) ≡ 0
      → ((j : ℕ) → lo ≤ j → j < i → m (sectors + j) ≢ 0)
      → found ≡ some i
      → Free m sectors lo hi found
  full :
      ((j : ℕ) → lo ≤ j → j < hi → m (sectors + j) ≢ 0) → found ≡ none → Free m sectors lo hi found

module _ (m : Memory) (sectors : ℕ) where
  -- A store of what is there changes nothing.
  unchanged : (a : ℕ) → m a ≡ 0 → store8 m a 0 ≡ m
  unfolding store8
  unchanged a e = fun_ext λ x. ground arith

  later :
      (lo hi : ℕ) (found : Option ℕ)
      → m (sectors + lo) ≢ 0
      → Free m sectors (lo + 1) hi found
      → Free m sectors lo hi found
  later lo hi found taken (first i from to zero_byte before e) =
      first i (omega arith) to zero_byte
        (λ j a b. elim (ℕ_discrete lo j) [
          | yes s ↦ rw (← s) taken
          | no ne ↦ before j (omega arith) b
        ])
        e
  later lo hi found taken (full none_free e) =
      full
        (λ j a b. elim (ℕ_discrete lo j) [
          | yes s ↦ rw (← s) taken
          | no ne ↦ none_free j (omega arith) b
        ])
        e

  loop-Free :
      (left lo hi : ℕ)
      → lo + left ≡ hi
      → ((free_sector_loop left m sectors lo).0 ≡ m)
        × Free m sectors lo hi (free_sector_loop left m sectors lo).1
  unfolding free_sector_loop
  loop-Free zero lo hi e = (refl, full (λ j a b. absurd (omega arith)) refl)
  loop-Free (suc left) lo hi e = elim (Bool-cases (m (sectors + lo) == 0)) [
    | inl free ↦
        let z : m (sectors + lo) ≡ 0 = ground arith in
        rw free (
          unchanged (sectors + lo) z,
          first lo (omega arith) (omega arith) z (λ j a b. absurd (omega arith)) refl,
        )
    | inr taken ↦
        let rest = loop-Free left (lo + 1) hi (omega arith) in
        rw taken
          (rest.0, later lo hi (free_sector_loop left m sectors (lo + 1)).1 (ground arith) rest.1)
  ]

  -- `GetFreeSector` gives the first sector behind the map and the table whose byte in the map is
  -- zero, or nothing where there is none. It leaves the map as it is, so that the next call gives the
  -- same sector again.
  pub get_free_sector-Free :
      (sector_count : ℕ)
      → sector_count / 512 + 2 ≤ sector_count
      → Free m sectors
          (sector_count / 512 + 2)
          sector_count
          (get_free_sector m sectors sector_count).1
        × ((get_free_sector m sectors sector_count).0 ≡ m)
        × (get_free_sector (get_free_sector m sectors sector_count).0 sectors sector_count
            ≡ get_free_sector m sectors sector_count)
  unfolding get_free_sector
  get_free_sector-Free sector_count room =
      let start = sector_count / 512 + 2 in
      let r = loop-Free (sector_count - start) start sector_count (omega arith) in
      (r.1, r.0, ap (λ (k : Memory). free_sector_loop (sector_count - start) k sectors start) r.0)
