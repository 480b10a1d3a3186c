-- ===== src/Paging/Walk.antt =====
-- What the processor does with the tables: the walk of a virtual address through four levels, from
-- a word to the page that it names. It is the reference for `MapMemory`.
use mad_os.Base.{ℕ, ◌+◌, ◌*◌, Option, some, none, Bool, true, false}
use mad_os.Memory.{Memory, load64}
use mad_os.Paging.Entry.{present, get_flag, get_address}
use mad_os.Paging.Indexer.{page_map_indexer}

-- Entry `i` of the table in page `p`.
abbrev pub entry_at : Memory → (p i : ℕ) → ℕ
entry_at m p i = load64 m (p * 4096 + i * 8)

abbrev pub target_if : Bool → ℕ → Option ℕ
target_if true e = some (get_address e)
target_if false e = none

-- The page that entry `i` of the table in page `p` names, if it is present.
unfoldable pub follow : Memory → (p i : ℕ) → Option ℕ
follow m p i = target_if (get_flag (entry_at m p i) present) (entry_at m p i)

infixl 5 ◌>>=◌
abbrev pub ◌>>=◌ : Option ℕ → (ℕ → Option ℕ) → Option ℕ
none >>= next = none
some p >>= next = next p

-- The page to which the tables under page `root` send a virtual address.
unfoldable pub translate : Memory → (root v : ℕ) → Option ℕ
translate m root v =
    let i = page_map_indexer v in
    do
      pdp ← follow m root i.pdp_i
      pd ← follow m pdp i.pd_i
      pt ← follow m pd i.pt_i
      follow m pt i.p_i
