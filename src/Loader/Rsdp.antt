-- ===== src/Loader/Rsdp.antt =====
-- Which root pointer the boot loader hands over.
use mad_os.Base.{
  ℕ, zero, suc, ◌+◌, ◌*◌, ◌≤◌, ◌<◌, ◌≡◌, ◌≢◌, ◌⊎◌, inl, inr, refl, Bool, true, false, not, ◌&&◌,
  ◌==◌, Bool-cases, arith,
}
use native.Mathlib.Decide.{ℕ_discrete}
use mad_os.Memory.{Memory, load64}
use mad_os.Loader.Firmware.{Firmware}
use mad_os.Loader.Compare.{strcmp, strcmp-first}
use mad_os.Loader.Main.{rsdp_loop, find_rsdp}

-- `VendorTable` of the entry `k` of the configuration tables.
abbrev pub vendor_table : Memory → (tables k : ℕ) → ℕ
vendor_table m tables k = load64 m (tables + 24 * k + 16)

-- How the loop ends.
pub data Finds (Match : ℕ → Type 0) (vendor : ℕ → ℕ) (lo hi old result : ℕ) : Type 0 where
  nothing :
      ((k : ℕ) → lo ≤ k → k < hi → ¬ Match k) → result ≡ old → Finds Match vendor lo hi old result
  last :
      (k : ℕ)
      → lo ≤ k
      → k < hi
      → Match k
      → ((j : ℕ) → k < j → j < hi → ¬ Match j)
      → result ≡ vendor k
      → Finds Match vendor lo hi old result

-- The 16 bytes of two GUIDs are the same.
abbrev pub SameGuid : Memory → (a b : ℕ) → Type 0
SameGuid m a b = (i : ℕ) → i < 16 → m (a + i) ≡ m (b + i)

-- `CompareGuid` as the gnu-efi library documents it: it gives 0 for the same GUID, and another value
-- otherwise.
pub record ComparesGuids {S : Type 0} (fw : Firmware S) : Type 0 where
  pub same_zero : (m : Memory) (a b : ℕ) → SameGuid m a b → fw.compare_guid m a b ≡ 0
  pub zero_same : (m : Memory) (a b : ℕ) → fw.compare_guid m a b ≡ 0 → SameGuid m a b

-- The entry `2 * k` has another GUID than the one at `acpi_guid`, and the table of the entry `k` starts
-- with the byte at `rsd_ptr`.
abbrev pub Match : Memory → (acpi_guid rsd_ptr tables k : ℕ) → Type 0
Match m acpi_guid rsd_ptr tables k =
    (¬ SameGuid m (tables + 48 * k) acpi_guid) × (m rsd_ptr ≡ m (vendor_table m tables k))

module _ {S : Type 0} (fw : Firmware S) (guids : ComparesGuids fw) (m : Memory)
    (acpi_guid rsd_ptr tables : ℕ) where
  abbrev Here : ℕ → Type 0
  Here = Match m acpi_guid rsd_ptr tables

  abbrev test : ℕ → Bool
  test k =
      not (fw.compare_guid m (tables + 48 * k) acpi_guid == 0)
      && not (strcmp m rsd_ptr (vendor_table m tables k) 8 == 0)

  one_or_none : (a b : ℕ) → (strcmp m a b 8 ≡ 0) ⊎ (strcmp m a b 8 ≡ 1)
  unfolding strcmp
  one_or_none a b = ground arith

  test-Here : (k : ℕ) → test k ≡ true → Here k
  test-Here k e = (
    other_guid (guids.same_zero m (tables + 48 * k) acpi_guid),
    (strcmp-first m rsd_ptr (vendor_table m tables k) 8 (omega arith)).0
        (ground (arith, one_or_none rsd_ptr (vendor_table m tables k))),
  )
    where
      other_guid :
          (SameGuid m (tables + 48 * k) acpi_guid
            → fw.compare_guid m (tables + 48 * k) acpi_guid ≡ 0)
          → ¬ SameGuid m (tables + 48 * k) acpi_guid
      other_guid zero_ same = let z = zero_ same in ground (arith, e, z)

  test-not : (k : ℕ) → test k ≡ false → ¬ Here k
  test-not k e (differs, signed) =
      let one = (strcmp-first m rsd_ptr (vendor_table m tables k) 8 (omega arith)).1 signed in
      let unequal : fw.compare_guid m (tables + 48 * k) acpi_guid ≢ 0 =
        λ z. differs (guids.zero_same m (tables + 48 * k) acpi_guid z) in
      ground (arith, one, unequal)

  abbrev vendor : ℕ → ℕ
  vendor = vendor_table m tables

  skip :
      (i hi old r : ℕ)
      → ¬ Here i
      → Finds Here vendor (i + 1) hi old r
      → Finds Here vendor i hi old r
  skip i hi old r away (nothing none e) =
      nothing
        (λ k from to. elim (ℕ_discrete i k) [
          | yes same ↦ rw (← same) away
          | no ne ↦ none k (omega arith) to
        ])
        e
  skip i hi old r away (last k from to here later e) = last k (omega arith) to here later e

  take_it :
      (i hi old r : ℕ)
      → i < hi
      → Here i
      → Finds Here vendor (i + 1) hi (vendor i) r
      → Finds Here vendor i hi old r
  take_it i hi old r lt here (nothing none e) =
      last i (omega arith) lt here (λ j from to. none j (omega arith) to) e
  take_it i hi old r lt here (last k from to there later e) = last k (omega arith) to there later e

  loop-Finds :
      (left i hi table old : ℕ)
      → i + left ≡ hi
      → table ≡ tables + 24 * i
      → Finds Here vendor i hi old (rsdp_loop fw left m acpi_guid rsd_ptr table i old)
  unfolding rsdp_loop
  loop-Finds zero i hi table old e at = nothing (λ k from to. absurd (omega arith)) refl
  loop-Finds (suc left) i hi table old e at =
      let guid : tables + 24 * i + 24 * i ≡ tables + 48 * i = omega arith in
      let next = λ (r : ℕ).
        loop-Finds left (i + 1) hi (tables + 24 * i + 24) r (omega arith) (omega arith) in
      elim (Bool-cases (test i)) [
        | inl yes' ↦
            rw (at, guid, yes')
              (take_it i hi old _ (omega arith) (test-Here i yes') (next (vendor i)))
        | inr no' ↦ rw (at, guid, no') (skip i hi old _ (test-not i no') (next old))
      ]

-- If `CompareGuid` compares GUIDs as the library documents, the root pointer that is handed over is that
-- of the last entry `k` of the configuration tables for which the entry `2 * k` has another GUID than
-- the one at `acpi_guid` and the table that `k` points to starts with the letter of the signature, and
-- `NULL` where there is no such entry.
pub find_rsdp-Finds :
    {S : Type 0} (fw : Firmware S)
    → ComparesGuids fw
    → (m : Memory) (system_table acpi_guid rsd_ptr : ℕ)
    → Finds
        (Match m acpi_guid rsd_ptr (load64 m (system_table + 112)))
        (vendor_table m (load64 m (system_table + 112)))
        0
        (load64 m (system_table + 104))
        0
        (find_rsdp fw m system_table acpi_guid rsd_ptr)
unfolding find_rsdp
find_rsdp-Finds fw guids m system_table acpi_guid rsd_ptr =
    let tables = load64 m (system_table + 112) in
    let n = load64 m (system_table + 104) in
    loop-Finds fw guids m acpi_guid rsd_ptr tables n 0 n tables 0 (omega arith) (omega arith)
