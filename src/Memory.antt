-- ===== src/Memory.antt =====
-- Physical memory as bytes at addresses, with the loads, stores and fills of the kernel's pointers.
-- x86-64 is little-endian. Pointer arithmetic of C++ does not wrap (that is undefined), so an
-- address is a plain number.
pub mod Laws
use mad_os.Base.{ℕ, zero, suc, ◌+◌, ◌*◌, ◌/◌, ◌%◌, Bool, ◌&&◌, ◌==◌, leb, ltb, if◌then◌else◌}

abbrev pub Memory : Type 0
Memory = ℕ → ℕ

-- One byte is written.
unfoldable pub store8 : Memory → ℕ → ℕ → Memory
store8 m a v x = if x == a then v else m x

-- The little-endian number in `n` bytes at `a`.
unfoldable pub load : ℕ → Memory → ℕ → ℕ
load zero m a = 0
load (suc n) m a = m a + 256 * load n m (a + 1)

-- The lowest `n` bytes of `v` are written at `a`.
unfoldable pub store : ℕ → Memory → ℕ → ℕ → Memory
store zero m a v = m
store (suc n) m a v = store n (store8 m a (v % 256)) (a + 1) (v / 256)

-- The `n` bytes at `a` all become `c`: the reference for `memset`, and one vector store.
unfoldable pub fill : Memory → ℕ → ℕ → ℕ → Memory
fill m a n c x = if leb a x && ltb x (a + n) then c else m x

abbrev pub load32 : Memory → ℕ → ℕ
load32 = load 4

abbrev pub load64 : Memory → ℕ → ℕ
load64 = load 8

abbrev pub store32 : Memory → ℕ → ℕ → Memory
store32 = store 4

abbrev pub store64 : Memory → ℕ → ℕ → Memory
store64 = store 8
