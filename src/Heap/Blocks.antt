-- ===== src/Heap/Blocks.antt =====
-- What a block holds after a store to one of its fields, and after one to another block.
use mad_os.Heap.Defs.{header, block_at, set_size, set_free, set_prev, set_next, new_block}
use mad_os.Memory.{Memory, store}
use mad_os.Memory.Laws.{
  store_frame, store8_self, store8_other, load-store, load-store_apart, load_cong,
}
use mad_os.Base.{
  ℕ, ◌+◌, ◌^◌, ◌≤◌, ◌<◌, ◌≡◌, ◌⊎◌, inl, inr, refl, Bool, true, false, not, ◌==◌, u32, u64,
  if◌then◌else◌, arith,
}

-- The headers at `b` and at `c` share no byte.
abbrev pub Apart : ℕ → ℕ → Type 0
Apart b c = (b + header ≤ c) ⊎ (c + header ≤ b)

-- A block is read from its own bytes only.
pub block_at_cong :
    (m k : Memory) (b : ℕ)
    → ((x : ℕ) → b ≤ x → x < b + header → m x ≡ k x)
    → block_at m b ≡ block_at k b
unfolding block_at
block_at_cong m k b same = rw (
  load_cong 4 m k b (λ x lo hi. same x lo (omega arith)),
  same (b + 4) (omega arith) (omega arith),
  load_cong 8 m k (b + 8) (λ x lo hi. same x (omega arith) (omega arith)),
  load_cong 8 m k (b + 16) (λ x lo hi. same x (omega arith) (omega arith)),
)

-- A store of `n` bytes inside the header at `b` leaves every header apart from it.
store-block_at-Apart :
    (n : ℕ) (m : Memory) (a v b c : ℕ)
    → b ≤ a
    → a + n ≤ b + header
    → Apart b c
    → block_at (store n m a v) c ≡ block_at m c
store-block_at-Apart n m a v b c lo hi (inl h) =
    block_at_cong (store n m a v) m c (λ x above below. store_frame n m a v x (inr (omega arith)))
store-block_at-Apart n m a v b c lo hi (inr h) =
    block_at_cong (store n m a v) m c (λ x above below. store_frame n m a v x (inl (omega arith)))

module _ (m : Memory) (b c : ℕ) (apart : Apart b c) where
  pub set_size-Apart : (v : ℕ) → block_at (set_size m b v) c ≡ block_at m c
  unfolding set_size
  set_size-Apart v = store-block_at-Apart 4 m b v b c (omega arith) (omega arith) apart

  pub set_prev-Apart : (v : ℕ) → block_at (set_prev m b v) c ≡ block_at m c
  unfolding set_prev
  set_prev-Apart v = store-block_at-Apart 8 m (b + 8) v b c (omega arith) (omega arith) apart

  pub set_next-Apart : (v : ℕ) → block_at (set_next m b v) c ≡ block_at m c
  unfolding set_next
  set_next-Apart v = store-block_at-Apart 8 m (b + 16) v b c (omega arith) (omega arith) apart

  pub set_free-Apart : (f : Bool) → block_at (set_free m b f) c ≡ block_at m c
  unfolding set_free
  set_free-Apart f =
      block_at_cong (set_free m b f) m c
        (λ x lo hi. store8_other m (b + 4) (if f then 1 else 0) x (ground (arith, apart)))

free_byte : (f : Bool) → not ((if f then 1 else 0) == 0) ≡ f
free_byte true = refl
free_byte false = refl

module _ (m : Memory) (b : ℕ) where
  pub set_size-block_at :
      (v : ℕ) → block_at (set_size m b v) b ≡ record (block_at m b) { size = u32 v }
  unfolding set_size block_at
  set_size-block_at v = rw (
    load-store 4 m b v,
    store_frame 4 m b v (b + 4) (inr (omega arith)),
    load-store_apart 8 4 m (b + 8) b v (inr (omega arith)),
    load-store_apart 8 4 m (b + 16) b v (inr (omega arith)),
  )

  pub set_prev-block_at :
      (v : ℕ) → block_at (set_prev m b v) b ≡ record (block_at m b) { prev = u64 v }
  unfolding set_prev block_at
  set_prev-block_at v = rw (
    load-store_apart 4 8 m b (b + 8) v (inl (omega arith)),
    store_frame 8 m (b + 8) v (b + 4) (inl (omega arith)),
    load-store 8 m (b + 8) v,
    load-store_apart 8 8 m (b + 16) (b + 8) v (inr (omega arith)),
  )

  pub set_next-block_at :
      (v : ℕ) → block_at (set_next m b v) b ≡ record (block_at m b) { next = u64 v }
  unfolding set_next block_at
  set_next-block_at v = rw (
    load-store_apart 4 8 m b (b + 16) v (inl (omega arith)),
    store_frame 8 m (b + 16) v (b + 4) (inl (omega arith)),
    load-store_apart 8 8 m (b + 8) (b + 16) v (inl (omega arith)),
    load-store 8 m (b + 16) v,
  )

  pub set_free-block_at :
      (f : Bool) → block_at (set_free m b f) b ≡ record (block_at m b) { free = f }
  unfolding set_free block_at
  set_free-block_at f =
      let v : ℕ = if f then 1 else 0 in
      rw (
        load_cong 4 (set_free m b f) m b (λ x lo hi. store8_other m (b + 4) v x (omega arith)),
        store8_self m (b + 4) v,
        load_cong 8 (set_free m b f) m (b + 8)
            (λ x lo hi. store8_other m (b + 4) v x (omega arith)),
        load_cong 8 (set_free m b f) m (b + 16)
            (λ x lo hi. store8_other m (b + 4) v x (omega arith)),
        free_byte f,
      )

-- A new block is one free block of a page and a header.
pub new_block-block_at :
    (m : Memory) (b prev : ℕ)
    → prev < 2 ^ 64
    → block_at (new_block m b prev) b
      ≡ record { size = 4096 + header; free = true; prev = prev; next = 0 }
unfolding new_block
new_block-block_at m b prev h =
    let e : u64 prev ≡ prev = omega arith in
    rw (set_next-block_at, set_prev-block_at, set_free-block_at, set_size-block_at, e)

pub new_block-Apart :
    (m : Memory) (b c prev : ℕ) → Apart b c → block_at (new_block m b prev) c ≡ block_at m c
unfolding new_block
new_block-Apart m b c prev h =
    simp (
      set_next-Apart _ b c h,
      set_prev-Apart _ b c h,
      set_free-Apart _ b c h,
      set_size-Apart _ b c h,
    )

-- The byte lies outside the header.
abbrev pub Outside : ℕ → ℕ → Type 0
Outside b a = (a < b) ⊎ (b + header ≤ a)

module _ (m : Memory) (b a : ℕ) (out : Outside b a) where
  inside : (k n : ℕ) → k + n ≤ header → (a < b + k) ⊎ (b + k + n ≤ a)
  inside k n h = ground (arith, out)

  pub set_size_frame : (v : ℕ) → set_size m b v a ≡ m a
  unfolding set_size
  set_size_frame v = store_frame 4 m b v a (ground (arith, out))

  pub set_prev_frame : (v : ℕ) → set_prev m b v a ≡ m a
  unfolding set_prev
  set_prev_frame v = store_frame 8 m (b + 8) v a (inside 8 8 (omega arith))

  pub set_next_frame : (v : ℕ) → set_next m b v a ≡ m a
  unfolding set_next
  set_next_frame v = store_frame 8 m (b + 16) v a (inside 16 8 (omega arith))

  pub set_free_frame : (f : Bool) → set_free m b f a ≡ m a
  unfolding set_free
  set_free_frame f = store8_other m (b + 4) (if f then 1 else 0) a (ground (arith, out))
