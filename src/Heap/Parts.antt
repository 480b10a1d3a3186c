-- ===== src/Heap/Parts.antt =====
-- The blocks of a heap lie clear of one another, and a block that is cut makes two such.
use mad_os.Heap.Defs.{Heap, HeapBlock, header, ahead, mem, block_at, round_up, split}
use mad_os.Heap.Blocks.{Apart}
use mad_os.Heap.Split.{split-Apart, split-taken, split-rest}
use mad_os.Heap.Chain.{Cell, head_addr, Linked, Clear}
use mad_os.Memory.{Memory}
use mad_os.Base.{
  ℕ, ◌+◌, ◌-◌, ◌^◌, ◌≤◌, ◌<◌, ◌≡◌, inl, inr, ap, ◌∙◌, true, false, ◌==◌, List, [], ◌∷◌, ◌++◌, All,
  length, u64, arith,
}

-- The blocks have units, that end below 2 ^ 64, and do not overlap.
abbrev pub Spread : List Cell → Type 0
Spread [] = Unit {0}
Spread (x ∷ xs) =
    (0 < x.size) × (x.size < 2 ^ 32) × (ahead x.addr x.size < 2 ^ 64) × All (Clear x) xs × Spread xs

-- The heap's blocks are `xs`, in the order of the chain.
pub record IsChain (h : Heap) (xs : List Cell) : Type 0 where
  pub starts : h.heap_start ≡ head_addr xs
  pub counted : h.block_count ≡ length xs
  pub short : length xs < 2 ^ 31 - 1
  pub chain : Linked (mem h) 0 xs

-- And they lie clear of one another.
pub record IsHeap (h : Heap) (xs : List Cell) : Type 0 where
  pub chained : IsChain h xs
  pub spread : Spread xs

-- The units that a request comes to: its bytes, rounded up, and the header.
abbrev pub need_of : ℕ → ℕ
need_of size = u64 (round_up size + header)

pub need_of_bounds :
    (size : ℕ)
    → 0 < size
    → size < 2 ^ 63
    → (size + header ≤ need_of size) × (need_of size < size + header + 16)
unfolding round_up
need_of_bounds size some_bytes small = ground arith

pub round_up_pos : (size : ℕ) → 0 < size → size < 2 ^ 63 → (round_up size == 0) ≡ false
unfolding round_up
round_up_pos size some_bytes small = ground arith

-- The two parts of a block that is cut.
abbrev pub taken : Cell → ℕ → Cell
taken x need = record { addr = x.addr; size = need; free = false }

abbrev pub rest : Cell → ℕ → Cell
rest x need = record { addr = ahead x.addr need; size = x.size - need; free = true }

-- The block in the middle of a chain.
pub Spread-mid :
    (front : List Cell) (x : Cell) (behind : List Cell)
    → Spread (front ++ x ∷ behind)
    → (0 < x.size) × (x.size < 2 ^ 32) × (ahead x.addr x.size < 2 ^ 64)
Spread-mid [] x behind s = (s.0, s.1, s.2)
Spread-mid (y ∷ front) x behind s = Spread-mid front x behind s.4

pub Clear-mid :
    (y : Cell) (front : List Cell) (x : Cell) (behind : List Cell)
    → All (Clear y) (front ++ x ∷ behind)
    → Clear y x
Clear-mid y [] x behind c = c.0
Clear-mid y (z ∷ front) x behind c = Clear-mid y front x behind c.1

pub Linked-mid :
    (m : Memory) (prev : ℕ) (front : List Cell) (x : Cell) (behind : List Cell)
    → Linked m prev (front ++ x ∷ behind)
    → (0 < x.addr) × ((block_at m x.addr).size ≡ x.size) × ((block_at m x.addr).free ≡ x.free)
Linked-mid m prev [] x behind l =
    (l.0, ap (λ (b : HeapBlock). b.size) l.1, ap (λ (b : HeapBlock). b.free) l.1)
Linked-mid m prev (y ∷ front) x behind l = Linked-mid m y.addr front x behind l.2

module _ (x : Cell) (need : ℕ) (some_units : 0 < need) (cut : need < x.size) where
  Clear-parts : (y : Cell) → Clear y x → Clear y (taken x need) × Clear y (rest x need)
  Clear-parts y (inl h) = (inl h, inl (omega arith))
  Clear-parts y (inr h) = (inr (omega arith), inr (omega arith))

  All-Clear-parts :
      (y : Cell) (front : List Cell)
      → All (Clear y) (front ++ x ∷ [])
      → All (Clear y) (front ++ taken x need ∷ rest x need ∷ [])
  All-Clear-parts y [] c = ((Clear-parts y c.0).0, ((Clear-parts y c.0).1, tt))
  All-Clear-parts y (z ∷ front) c = (c.0, All-Clear-parts y front c.1)

  pub Spread-parts :
      (front : List Cell)
      → Spread (front ++ x ∷ [])
      → Spread (front ++ taken x need ∷ rest x need ∷ [])
  Spread-parts [] s = (
    some_units,
    omega arith,
    omega arith,
    (inl (omega arith), tt),
    (omega arith, omega arith, omega arith, tt, tt),
  )
  Spread-parts (y ∷ front) s = (s.0, s.1, s.2, All-Clear-parts y front s.3, Spread-parts front s.4)

  pub Apart-parts :
      (y : Cell) → 0 < y.size → Clear y x → Apart x.addr y.addr × Apart (ahead x.addr need) y.addr
  Apart-parts y units (inl h) = (inr (omega arith), inr (omega arith))
  Apart-parts y units (inr h) = (inl (omega arith), inl (omega arith))

  pub front_kept :
      (h : Heap) (front behind : List Cell)
      → Spread (front ++ x ∷ behind)
      → All (λ y. block_at (mem (split h x.addr need).0) y.addr ≡ block_at (mem h) y.addr) front
  front_kept h [] behind s = tt
  front_kept h (y ∷ front) behind s =
      let apart = Apart-parts y s.0 (Clear-mid y front x behind s.3) in
      (split-Apart h x.addr need y.addr apart.0 apart.1, front_kept h front behind s.4)

  -- The chain after the cut: what followed the block is no longer in it.
  pub Linked-parts :
      (h : Heap) (prev : ℕ) (front behind : List Cell)
      → Linked (mem h) prev (front ++ x ∷ behind)
      → Spread (front ++ x ∷ behind)
      → (block_at (mem h) (ahead x.addr need)).next ≡ 0
      → Linked (mem (split h x.addr need).0) prev (front ++ taken x need ∷ rest x need ∷ [])
  Linked-parts h prev [] behind l s clean =
      let e : (block_at (mem h) x.addr).size ≡ x.size = ap (λ (b : HeapBlock). b.size) l.1 in
      let c : need < (block_at (mem h) x.addr).size = omega arith in
      let here = split-taken h x.addr need some_units c (omega arith) (omega arith) in
      let there = split-rest h x.addr need some_units c (omega arith) (omega arith) in
      (l.0, rw l.1 at here, (omega arith, rw (e, clean) at there, tt))
  Linked-parts h prev (y ∷ []) behind l s clean =
      let kept = front_kept h (y ∷ []) behind s in
      (l.0, kept.0 ∙ l.1, Linked-parts h y.addr [] behind l.2 s.4 clean)
  Linked-parts h prev (y ∷ z ∷ front) behind l s clean =
      let kept = front_kept h (y ∷ z ∷ front) behind s in
      (l.0, kept.0 ∙ l.1, Linked-parts h y.addr (z ∷ front) behind l.2 s.4 clean)
