-- ===== src/Paging/Map/Entries.antt =====
-- The words of the tables: what a linked entry says, and which writes leave an entry alone.
use mad_os.Paging.Map.{linked}
use mad_os.Paging.Walk.{entry_at}
use mad_os.Paging.Entry.{present, read_write, set_flag, get_flag, set_address, get_address}
use mad_os.Paging.Entry.Laws.{
  set_address_lem, set_flag_lem, get_address-set_flag, get_flag-Present, get_flag-set_flag_present,
}
use mad_os.Base.{
  ℕ, ◌+◌, ◌*◌, ◌/◌, ◌%◌, ◌^◌, ◌<◌, ◌≡◌, ◌≢◌, ◌⊎◌, sym, ap, ◌∙◌, true, false, ◌==◌, ◌>>>◌, arith,
}
use mad_os.Memory.{Memory, load, store64, fill}
use mad_os.Memory.Laws.{load-store, load-store_apart, load_cong}

-- A linked entry is present and holds the address; its word has 64 bits.
pub linked_lem :
    (e addr : ℕ)
    → e < 2 ^ 64
    → (get_flag (linked e addr) present ≡ true)
      × (get_address (linked e addr) ≡ addr / 4096 % 2 ^ 40)
      × (linked e addr < 2 ^ 64)
linked_lem e addr h =
    let (address, _, _, small) = set_address_lem e (addr >>> 12) h in
    let e' = set_address e (addr >>> 12) in
    let e'' = set_flag e' present true in
    let small' : e'' < 2 ^ 64 = (set_flag_lem e' present true).2 small in
    (
      get_flag-Present (linked e addr) present
          ∙ ap (λ d. d == 1)
              ((set_flag_lem e'' read_write true).1 0 (omega arith) (λ p. omega arith))
          ∙ sym (get_flag-Present e'' present)
          ∙ get_flag-set_flag_present e' true,
      get_address-set_flag e'' read_write true (omega arith) small'
          ∙ get_address-set_flag e' present true (omega arith) small
          ∙ address,
      (set_flag_lem e'' read_write true).2 small',
    )

-- The entry that was written is read back.
pub entry_at-store_self :
    (m : Memory) (p i e : ℕ) → e < 2 ^ 64 → entry_at (store64 m (p * 4096 + i * 8) e) p i ≡ e
entry_at-store_self m p i e h = load-store 8 m (p * 4096 + i * 8) e ∙ omega arith

-- The other entries stay.
pub entry_at-store_ne :
    (m : Memory) (p i q j e : ℕ)
    → i < 512
    → j < 512
    → (p ≢ q) ⊎ (i ≢ j)
    → entry_at (store64 m (p * 4096 + i * 8) e) q j ≡ entry_at m q j
entry_at-store_ne m p i q j e hi hj ne =
    load-store_apart 8 8 m (q * 4096 + j * 8) (p * 4096 + i * 8) e (ground (arith, ne))

-- An entry depends on its page only.
pub entry_at_cong :
    (m k : Memory) (p i : ℕ)
    → i < 512
    → ((x : ℕ) → x / 4096 ≡ p → m x ≡ k x)
    → entry_at m p i ≡ entry_at k p i
entry_at_cong m k p i h same = load_cong 8 m k (p * 4096 + i * 8) (λ x lo hi. same x (omega arith))

fill_page : (m : Memory) (p c x : ℕ) → x / 4096 ≡ p → fill m (p * 4096) 4096 c x ≡ c
unfolding fill
fill_page m p c x h = ground arith

-- A page of zeros holds no present entry.
pub zero_entries :
    (m : Memory) (p i : ℕ)
    → i < 512
    → get_flag (entry_at (fill m (p * 4096) 4096 0) p i) present ≡ false
unfolding get_flag load
zero_entries m p i h =
    let zeros : entry_at (fill m (p * 4096) 4096 0) p i ≡ entry_at (λ _. 0) p i =
      entry_at_cong (fill m (p * 4096) 4096 0) (λ _. 0) p i h (λ x e. fill_page m p 0 x e) in
    rw zeros
