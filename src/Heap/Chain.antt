-- ===== src/Heap/Chain.antt =====
-- The chain of blocks in memory as a list, and the search of `kmalloc` along it.
use mad_os.Heap.Defs.{HeapBlock, ahead, block_at, find, selected, ran_out}
use mad_os.Memory.{Memory}
use mad_os.Base.{
  ℕ, zero, suc, ◌≤◌, ◌<◌, ◌≡◌, ◌⊎◌, refl, ◌∙◌, Bool, true, false, ◌&&◌, ◌==◌, leb, List, [], ◌∷◌,
  ◌++◌, All, length, arith,
}

-- A block as its user sees it.
pub record Cell : Type 0 where
  pub addr : ℕ
  pub size : ℕ
  pub free : Bool

abbrev pub head_addr : List Cell → ℕ
head_addr [] = 0
head_addr (x ∷ xs) = x.addr

-- What the memory holds at the block.
abbrev pub linked : ℕ → Cell → ℕ → HeapBlock
linked prev x next = record { size = x.size; free = x.free; prev = prev; next = next }

-- The blocks `xs` follow one another in the memory; `prev` is the block in front of them.
abbrev pub Linked : Memory → ℕ → List Cell → Type 0
Linked m prev [] = Unit {0}
Linked m prev (x ∷ xs) =
    (0 < x.addr) × (block_at m x.addr ≡ linked prev x (head_addr xs)) × Linked m x.addr xs

-- The block is free and has `size` units.
unfoldable pub fits : ℕ → Cell → Bool
fits size x = x.free && leb size x.size

abbrev pub Unfit : ℕ → Cell → Type 0
Unfit size x = fits size x ≡ false

-- The units of two blocks, as `block + n` counts them, do not overlap.
abbrev pub Clear : Cell → Cell → Type 0
Clear x y = (ahead x.addr x.size ≤ y.addr) ⊎ (ahead y.addr y.size ≤ x.addr)

-- A chain that keeps its blocks' headers survives.
pub Linked-frame :
    (m k : Memory) (prev : ℕ) (xs : List Cell)
    → All (λ x. block_at k x.addr ≡ block_at m x.addr) xs
    → Linked m prev xs
    → Linked k prev xs
Linked-frame m k prev [] same l = tt
Linked-frame m k prev (x ∷ xs) same l = (l.0, same.0 ∙ l.1, Linked-frame m k x.addr xs same.1 l.2)

nonnull : (a : ℕ) → 0 < a → (a == 0) ≡ false
nonnull a h = ground arith

-- The search takes the first block that fits.
pub find-selected :
    (left : ℕ) (m : Memory) (size prev : ℕ) (front : List Cell) (x : Cell) (behind : List Cell)
    → length front < left
    → Linked m prev (front ++ x ∷ behind)
    → All (Unfit size) front
    → fits size x ≡ true
    → find left m size (head_addr (front ++ x ∷ behind)) ≡ selected x.addr
unfolding find fits
find-selected zero m size prev front x behind n l unfit good = absurd (omega arith)
find-selected (suc left) m size prev [] x behind n l unfit good = rw (l.1, good)
find-selected (suc left) m size prev (y ∷ []) x behind n l unfit good =
    rw (l.1, unfit.0, nonnull x.addr l.2.0)
      (find-selected left m size y.addr [] x behind (omega arith) l.2 tt good)
find-selected (suc left) m size prev (y ∷ z ∷ front) x behind n l unfit good =
    rw (l.1, unfit.0, nonnull z.addr l.2.0)
      (find-selected left m size y.addr (z ∷ front) x behind (omega arith) l.2 unfit.1 good)

-- Where no block fits it comes to the last one.
pub find-ran_out :
    (left : ℕ) (m : Memory) (size prev : ℕ) (front : List Cell) (x : Cell)
    → length front ≤ left
    → Linked m prev (front ++ x ∷ [])
    → All (Unfit size) front
    → Unfit size x
    → find left m size (head_addr (front ++ x ∷ [])) ≡ ran_out x.addr
unfolding find fits
find-ran_out zero m size prev [] x n l unfit last = refl
find-ran_out zero m size prev (y ∷ front) x n l unfit last = absurd (omega arith)
find-ran_out (suc left) m size prev [] x n l unfit last =
    rw (l.1, last) (find-ran_out left m size prev [] x (omega arith) l unfit last)
find-ran_out (suc left) m size prev (y ∷ []) x n l unfit last =
    rw (l.1, unfit.0, nonnull x.addr l.2.0)
      (find-ran_out left m size y.addr [] x (omega arith) l.2 tt last)
find-ran_out (suc left) m size prev (y ∷ z ∷ front) x n l unfit last =
    rw (l.1, unfit.0, nonnull z.addr l.2.0)
      (find-ran_out left m size y.addr (z ∷ front) x (omega arith) l.2 unfit.1 last)
