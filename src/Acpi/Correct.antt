-- ===== src/Acpi/Correct.antt =====
-- The search for a table finds the first one with the signature.
use mad_os.Acpi.{
  header_size, table_length, revision, xsdt_address, checksum_loop, do_checksum, same_signature,
  entry, find_loop, find_table,
}
use mad_os.Base.{
  ℕ, zero, suc, ◌+◌, ◌-◌, ◌*◌, ◌/◌, ◌%◌, ◌^◌, ◌≤◌, ◌<◌, ◌≡◌, ◌≢◌, ◌⊎◌, inl, inr, refl, ap, ◌∙◌,
  true, false, ◌==◌, ltb, leb, u8, arith, Bool-cases,
}
use native.Mathlib.Decide.{ℕ_discrete}
use mad_os.Base.Run.{done}
use mad_os.Memory.{Memory}

-- The sum of `n` bytes, which does not wrap.
unfoldable pub byte_sum : Memory → (a n : ℕ) → ℕ
byte_sum m a zero = 0
byte_sum m a (suc n) = m a + byte_sum m (a + 1) n

checksum_loop-sum :
    (left : ℕ) (m : Memory) (table i sum : ℕ)
    → sum < 256
    → checksum_loop left m table i sum ≡ (sum + byte_sum m (table + i) left) % 256
unfolding checksum_loop byte_sum
checksum_loop-sum zero m table i sum h = omega arith
checksum_loop-sum (suc left) m table i sum h =
    let next : table + (i + 1) ≡ table + i + 1 = omega arith in
    checksum_loop-sum left m table (i + 1) (u8 (sum + m (table + i))) (omega arith)
    ∙ rw next (omega arith)

-- The checksum holds exactly if the sum of the table's bytes is a multiple of 256.
pub do_checksum-sum :
    (m : Memory) (table : ℕ)
    → do_checksum m table ≡ (byte_sum m table (table_length m table) % 256 == 0)
unfolding do_checksum
do_checksum-sum m table =
    let start : table + 0 ≡ table = omega arith in
    ap (λ n. n == 0)
      (rw start at (checksum_loop-sum (table_length m table) m table 0 0 (omega arith))
        ∙ omega arith)

-- The four letters agree.
abbrev pub IsNamed : Memory → (table signature : ℕ) → Type 0
IsNamed m table signature = (i : ℕ) → i < 4 → m (table + i) ≡ m (signature + i)

letters :
    (m : Memory) (table signature : ℕ)
    → same_signature 4 m table signature 0 ≡ true
    → (m (table + 0) ≡ m (signature + 0))
      × (m (table + 1) ≡ m (signature + 1))
      × (m (table + 2) ≡ m (signature + 2))
      × (m (table + 3) ≡ m (signature + 3))
unfolding same_signature
letters m table signature h = ground arith

same_signature-IsNamed :
    (m : Memory) (table signature : ℕ)
    → same_signature 4 m table signature 0 ≡ true
    → IsNamed m table signature
same_signature-IsNamed m table signature h zero lt = (letters m table signature h).0
same_signature-IsNamed m table signature h (suc zero) lt = (letters m table signature h).1
same_signature-IsNamed m table signature h (suc (suc zero)) lt = (letters m table signature h).2
same_signature-IsNamed m table signature h (suc (suc (suc zero))) lt =
    (letters m table signature h).3
same_signature-IsNamed m table signature h (suc (suc (suc (suc i)))) lt = absurd (omega arith)

IsNamed-same_signature :
    (m : Memory) (table signature : ℕ)
    → IsNamed m table signature
    → same_signature 4 m table signature 0 ≡ true
unfolding same_signature
IsNamed-same_signature m table signature named =
    rw (named 0 (omega arith), named 1 (omega arith), named 2 (omega arith), named 3 (omega arith))
      (ground arith)

-- Entry `t` is the first from `lo` on that names a table with the signature.
abbrev pub IsFirst : Memory → (xsdt signature lo t : ℕ) → Type 0
IsFirst m xsdt signature lo t =
    (lo ≤ t)
    × IsNamed m (entry m xsdt t) signature
    × ((u : ℕ) → lo ≤ u → u < t → ¬ IsNamed m (entry m xsdt u) signature)

find_loop_lem :
    (left : ℕ) (m : Memory) (xsdt signature t : ℕ)
    → t + left < 2 ^ 28
    → ((u : ℕ) × (u < t + left)
        × IsFirst m xsdt signature t u
        × (find_loop left m xsdt signature t ≡ done (entry m xsdt u)))
      ⊎ (((u : ℕ) → t ≤ u → u < t + left → ¬ IsNamed m (entry m xsdt u) signature)
          × (find_loop left m xsdt signature t ≡ done 0))
unfolding find_loop
find_loop_lem zero m xsdt signature t h = inr (λ u lo hi. absurd (omega arith), refl)
find_loop_lem (suc left) m xsdt signature t h =
    let small : leb (2 ^ 31) (t * 8) ≡ false = ground arith in
    elim (Bool-cases (same_signature 4 m (entry m xsdt t) signature 0)) [
      | inl here ↦ inl (
        t,
        omega arith,
        (
          omega arith,
          same_signature-IsNamed m (entry m xsdt t) signature here,
          λ u lo hi. absurd (omega arith),
        ),
        rw (small, here),
      )
      | inr other ↦
          let not_here : ¬ IsNamed m (entry m xsdt t) signature = λ named.
            ground (arith, other, IsNamed-same_signature m (entry m xsdt t) signature named) in
          elim (find_loop_lem left m xsdt signature (t + 1) (omega arith)) [
            | inl (u, hi, (lo, named, before), run) ↦ inl (
              u,
              omega arith,
              (omega arith, named, earlier t u not_here before),
              rw (small, other) run,
            )
            | inr (nowhere, run) ↦ inr (
              earlier t (t + suc left) not_here (λ v lo hi. nowhere v lo (omega arith)),
              rw (small, other) run,
            )
          ]
    ]
  where
    earlier :
        (t u : ℕ)
        → ¬ IsNamed m (entry m xsdt t) signature
        → ((v : ℕ) → t + 1 ≤ v → v < u → ¬ IsNamed m (entry m xsdt v) signature)
        → (v : ℕ) → t ≤ v
        → v < u
        → ¬ IsNamed m (entry m xsdt v) signature
    earlier t u not_here later v lo hi = elim (ℕ_discrete t v) [
      | yes e ↦ rw (← e) not_here
      | no ne ↦ later v (omega arith) hi
    ]

-- The number of entries of the list.
abbrev pub entries : Memory → ℕ → ℕ
entries m xsdt = (table_length m xsdt - header_size) / 8

-- If the descriptor is of revision 2 and points to a list whose bytes sum to a multiple of 256,
-- and which is at least a header and less than 2 GiB long, then `FindTable` ends, and returns the first
-- entry that names a table with the signature, or null if no entry does.
pub find_table-IsFirst :
    (m : Memory) (rsdp signature : ℕ)
    → revision m rsdp ≡ 2
    → xsdt_address m rsdp ≢ 0
    → header_size ≤ table_length m (xsdt_address m rsdp)
    → table_length m (xsdt_address m rsdp) < 2 ^ 31
    → byte_sum m (xsdt_address m rsdp) (table_length m (xsdt_address m rsdp)) % 256 ≡ 0
    → let xsdt = xsdt_address m rsdp in
      ((u : ℕ) × (u < entries m xsdt)
        × IsFirst m xsdt signature 0 u
        × (find_table m rsdp signature ≡ done (entry m xsdt u)))
      ⊎ (((u : ℕ) → u < entries m xsdt → ¬ IsNamed m (entry m xsdt u) signature)
          × (find_table m rsdp signature ≡ done 0))
unfolding find_table
find_table-IsFirst m rsdp signature two there long short sum =
    let xsdt = xsdt_address m rsdp in
    let e1 : (revision m rsdp == 2) ≡ true = ground arith in
    let e2 : (xsdt == 0) ≡ false = ground arith in
    let e3 : ltb (table_length m xsdt) header_size ≡ false = ground arith in
    let e4 : do_checksum m xsdt ≡ true = do_checksum-sum m xsdt ∙ ground arith in
    elim (find_loop_lem (entries m xsdt) m xsdt signature 0 (omega arith)) [
      | inl (u, hi, first, run) ↦ inl (u, omega arith, first, rw (e1, e2, e3, e4) run)
      | inr (nowhere, run) ↦
          inr (λ u h. nowhere u (omega arith) (omega arith), rw (e1, e2, e3, e4) run)
    ]

-- If the descriptor is not of revision 2, has no list, or the list is shorter than a header or its
-- bytes do not sum to a multiple of 256, then `FindTable` returns null.
pub find_table-null :
    (m : Memory) (rsdp signature : ℕ)
    → (revision m rsdp ≢ 2)
      ⊎ (xsdt_address m rsdp ≡ 0)
      ⊎ (table_length m (xsdt_address m rsdp) < header_size)
      ⊎ (byte_sum m (xsdt_address m rsdp) (table_length m (xsdt_address m rsdp)) % 256 ≢ 0)
    → find_table m rsdp signature ≡ done 0
unfolding find_table
find_table-null m rsdp signature h = ground (arith, h, do_checksum-sum m (xsdt_address m rsdp))
