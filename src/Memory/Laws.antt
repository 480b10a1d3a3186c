-- ===== src/Memory/Laws.antt =====
-- Laws of loads, stores and fills: round trips, frames, and fills that join.
use mad_os.Memory.{Memory, store8, load, store, fill}
use mad_os.Base.{
  ℕ, zero, suc, ◌+◌, ◌-◌, ◌*◌, ◌/◌, ◌%◌, ◌^◌, ◌≤◌, ◌<◌, ◌≡◌, ◌≢◌, ◌⊎◌, inl, inr, refl, sym, ap, ◌∙◌,
  fun_ext, arith,
}
use native.Mathlib.Nat.{pow-suc, one-le-pow, div-add-mod, add-mul-mod_self_left, mod-eq_of_lt}

-- A store leaves every byte outside its `n` bytes.
pub store_frame : (n : ℕ) (m : Memory) (a v x : ℕ) → (x < a) ⊎ (a + n ≤ x) → store n m a v x ≡ m x
unfolding store store8
store_frame zero m a v x h = refl
store_frame (suc n) m a v x h =
    ground (arith, store_frame n (store8 m a (v % 256)) (a + 1) (v / 256) x)

pub store8_other : (m : Memory) (a v x : ℕ) → x ≢ a → store8 m a v x ≡ m x
unfolding store8
store8_other m a v x ne = ground arith

pub store8_self : (m : Memory) (a v : ℕ) → store8 m a v a ≡ v
unfolding store8
store8_self m a v = ground arith

-- A load reads its `n` bytes only.
pub load_cong :
    (n : ℕ) (m k : Memory) (a : ℕ)
    → ((x : ℕ) → a ≤ x → x < a + n → m x ≡ k x)
    → load n m a ≡ load n k a
unfolding load
load_cong zero m k a same = refl
load_cong (suc n) m k a same = omega (
  arith,
  same a (omega arith) (omega arith),
  load_cong n m k (a + 1) (λ x lo hi. same x (omega arith) (omega arith)),
)

pub load-zeros :
    (n : ℕ) (m : Memory) (a : ℕ) → ((x : ℕ) → a ≤ x → x < a + n → m x ≡ 0) → load n m a ≡ 0
unfolding load
load-zeros zero m a clean = refl
load-zeros (suc n) m a clean = omega (
  arith,
  clean a (omega arith) (omega arith),
  load-zeros n m (a + 1) (λ x lo hi. clean x (omega arith) (omega arith)),
)

-- Eight bytes are four and four.
pub load64-words : (m : Memory) (a : ℕ) → load 8 m a ≡ load 4 m a + 2 ^ 32 * load 4 m (a + 4)
unfolding load
load64-words m a = let e : a + 4 ≡ a + 1 + 1 + 1 + 1 = omega arith in rw e (omega arith)

-- The lowest byte and the rest make up a number of `n + 1` bytes.
mod-low_byte : (n v : ℕ) → v % 256 + 256 * (v / 256 % 256 ^ n) ≡ v % 256 ^ suc n
mod-low_byte n v =
    let w = 256 ^ n in
    let q = v / 256 in
    let pos : 0 < w = one-le-pow n 256 (omega arith) in
    let small = v % 256 + 256 * (q % w) in
    let below : small < w * 256 = omega arith in
    let whole : small + w * 256 * (q / w) ≡ v = omega (arith, div-add-mod q w) in
    let e : (small + w * 256 * (q / w)) % (w * 256) ≡ small =
      add-mul-mod_self_left small (w * 256) (q / w) ∙ mod-eq_of_lt below in
    rw (pow-suc 256 n) (sym (rw whole at e))

-- What a store of `n` bytes wrote, a load of `n` bytes reads: the value modulo `256 ^ n`.
pub load-store : (n : ℕ) (m : Memory) (a v : ℕ) → load n (store n m a v) a ≡ v % 256 ^ n
unfolding load store
load-store zero m a v = omega arith
load-store (suc n) m a v =
    let m' = store8 m a (v % 256) in
    let first : store n m' (a + 1) (v / 256) a ≡ v % 256 =
      store_frame n m' (a + 1) (v / 256) a (inl (omega arith)) ∙ store8_self m a (v % 256) in
    omega (arith, first, load-store n m' (a + 1) (v / 256), mod-low_byte n v)

-- A load apart from a store reads the old value.
pub load-store_apart :
    (n k : ℕ) (m : Memory) (a b v : ℕ)
    → (a + n ≤ b) ⊎ (b + k ≤ a)
    → load n (store k m b v) a ≡ load n m a
load-store_apart n k m a b v h =
    load_cong n (store k m b v) m a (λ x lo hi. store_frame k m b v x (apart x lo hi h))
  where
    apart : (x : ℕ) → a ≤ x → x < a + n → (a + n ≤ b) ⊎ (b + k ≤ a) → (x < b) ⊎ (b + k ≤ x)
    apart x lo hi (inl p) = inl (omega arith)
    apart x lo hi (inr p) = inr (omega arith)

-- Bytes stay bytes.
abbrev pub IsBytes : Memory → Type 0
IsBytes m = (x : ℕ) → m x < 256

pub store-IsBytes : (n : ℕ) (m : Memory) (a v : ℕ) → IsBytes m → IsBytes (store n m a v)
unfolding store store8
store-IsBytes zero m a v h = h
store-IsBytes (suc n) m a v h =
    store-IsBytes n (store8 m a (v % 256)) (a + 1) (v / 256) (λ x. ground (arith, h x))

pub load-lt : (n : ℕ) (m : Memory) (a : ℕ) → IsBytes m → load n m a < 256 ^ n
unfolding load
load-lt zero m a h = omega arith
load-lt (suc n) m a h = omega (arith, h a, load-lt n m (a + 1) h, pow-suc 256 n)

-- Two fills of one value that touch make one fill.
pub fill-fill :
    (m : Memory) (a n b k c : ℕ)
    → a ≤ b
    → b ≤ a + n
    → a + n ≤ b + k
    → fill (fill m a n c) b k c ≡ fill m a (b + k - a) c
unfolding fill
fill-fill m a n b k c lo mid hi = fun_ext λ x. ground arith

-- A fill that starts in front of another.
pub fill-fill_before :
    (m : Memory) (a n b k c : ℕ)
    → b ≤ a
    → a ≤ b + k
    → b + k ≤ a + n
    → fill (fill m a n c) b k c ≡ fill m b (a + n - b) c
unfolding fill
fill-fill_before m a n b k c lo mid hi = fun_ext λ x. ground arith

pub fill-zero : (m : Memory) (a c : ℕ) → fill m a 0 c ≡ m
unfolding fill
fill-zero m a c = fun_ext λ x. ground arith

pub store8-fill : (m : Memory) (a c : ℕ) → store8 m a c ≡ fill m a 1 c
unfolding fill store8
store8-fill m a c = fun_ext λ x. ground arith

-- The number whose `n` lowest bytes are all `c`.
unfoldable pub repeat_byte : ℕ → ℕ → ℕ
repeat_byte zero c = 0
repeat_byte (suc n) c = c + 256 * repeat_byte n c

-- A store of repeated bytes is a fill.
pub store-repeat_byte :
    (n : ℕ) (m : Memory) (a c : ℕ) → c < 256 → store n m a (repeat_byte n c) ≡ fill m a n c
unfolding store repeat_byte
store-repeat_byte zero m a c h = sym (fill-zero m a c)
store-repeat_byte (suc n) m a c h =
    let low : (c + 256 * repeat_byte n c) % 256 ≡ c = omega arith in
    let high : (c + 256 * repeat_byte n c) / 256 ≡ repeat_byte n c = omega arith in
    rw (low, high, store-repeat_byte n (store8 m a c) (a + 1) c h, store8-fill m a c)
      (fill-fill m a 1 (a + 1) n c (omega arith) (omega arith) (omega arith)
        ∙ ap (λ k. fill m a k c) (omega arith))
