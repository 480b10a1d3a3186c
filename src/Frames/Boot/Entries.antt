-- ===== src/Frames/Boot/Entries.antt =====
-- The second pass over the memory map gives back exactly the pages of conventional memory.
use mad_os.Frames.Defs.{Frames, page_used, page_of}
use mad_os.Frames.Boot.{
  counts_reserved, give_back, note_reserved, read_descriptor, read_descriptors,
}
use mad_os.Frames.Range.{in_range, max_pages, unreserve_pages-Marks}
use mad_os.Base.{
  ℕ, zero, suc, ◌+◌, ◌≤◌, ◌<◌, ◌≡◌, ◌⊎◌, inl, inr, refl, ◌∙◌, Bool, true, false, not, ◌&&◌, ◌||◌,
  ◌==◌, if◌then◌else◌, arith, Bool-cases,
}
use mad_os.Bitmap.{Bitmap, beyond}
use native.Mathlib.Nat.{add-zero}
use mad_os.Memory.{Memory, load}
use mad_os.Memory.Laws.{load_cong}
use mad_os.Efi.{descriptor, memory_type, phys_addr, num_pages, conventional_memory}

-- The first and the last page, excluded, of an entry.
abbrev pub first_page : Memory → ℕ → ℕ
first_page m desc = page_of (phys_addr m desc)

abbrev pub end_page : Memory → ℕ → ℕ
end_page m desc = first_page m desc + num_pages m desc

-- Whether a page lies in an entry of conventional memory.
unfoldable pub is_offered : Memory → ℕ → ℕ → Bool
is_offered m desc j =
    (memory_type m desc == conventional_memory) && in_range (first_page m desc) (end_page m desc) j

-- Whether one of the entries from `i` on offers it.
unfoldable pub offers : Memory → (map descriptor_size : ℕ) → ℕ → ℕ → ℕ → Bool
offers m map descriptor_size zero i j = false
offers m map descriptor_size (suc left) i j =
    is_offered m (descriptor map descriptor_size i) j || offers m map descriptor_size left (i + 1) j

-- The fields of an entry that the kernel reads lie apart from the bitmap.
abbrev pub Apart : Bitmap → ℕ → Type 0
Apart b desc = (desc + 32 ≤ b.buffer) ⊎ (b.buffer + b.size < desc)

-- Two memories that agree outside the bitmap.
abbrev pub AgreeOutside : Bitmap → Memory → Memory → Type 0
AgreeOutside b k m = (x : ℕ) → (x < b.buffer) ⊎ (b.buffer + b.size < x) → k x ≡ m x

field_same :
    (n : ℕ) (b : Bitmap) (k m : Memory) (desc offset : ℕ)
    → Apart b desc
    → offset + n ≤ 32
    → AgreeOutside b k m
    → load n k (desc + offset) ≡ load n m (desc + offset)
field_same n b k m desc offset apart fits agree =
    load_cong n k m (desc + offset) (λ x lo hi. agree x (outside x lo hi apart))
  where
    outside :
        (x : ℕ)
        → desc + offset ≤ x
        → x < desc + offset + n
        → Apart b desc
        → (x < b.buffer) ⊎ (b.buffer + b.size < x)
    outside x lo hi (inl p) = inl (omega arith)
    outside x lo hi (inr p) = inr (omega arith)

type_same :
    (b : Bitmap) (k m : Memory) (desc : ℕ)
    → Apart b desc
    → AgreeOutside b k m
    → memory_type k desc ≡ memory_type m desc
type_same b k m desc apart agree =
    rw (add-zero desc) at (field_same 4 b k m desc 0 apart (omega arith) agree)

-- What one round comes to.
record Reads (desc : ℕ) (s t : Frames) : Type 0 where
  same_bitmap : t.page_bitmap ≡ s.page_bitmap
  bits :
      (j : ℕ)
      → page_used t j
        ≡ (if is_offered s.mem desc j && not (beyond s.page_bitmap j) then false else page_used s j)
  frame : AgreeOutside s.page_bitmap t.mem s.mem

give_back-Reads :
    (s : Frames) (desc : ℕ)
    → ((memory_type s.mem desc == conventional_memory) ≡ true → end_page s.mem desc ≤ max_pages)
    → Reads desc s (give_back s desc)
unfolding give_back is_offered
give_back-Reads s desc fits = elim (Bool-cases (memory_type s.mem desc == conventional_memory)) [
  | inl offered ↦
      let marks =
        unreserve_pages-Marks s (phys_addr s.mem desc) (num_pages s.mem desc) (fits offered) in
      rw offered (record {
        same_bitmap = marks.same_bitmap;
        bits = λ j. rw offered (marks.bits j);
        frame = marks.frame;
      })
  | inr other ↦ rw other (record { same_bitmap = refl; bits = λ j. rw other; frame = λ x _. refl })
]

note_reserved_mem : (s : Frames) (desc : ℕ) → (note_reserved s desc).mem ≡ s.mem
unfolding note_reserved
note_reserved_mem s desc = elim (Bool-cases (counts_reserved (memory_type s.mem desc))) [
  | inl yes_it_does ↦ rw yes_it_does
  | inr not_so ↦ rw not_so
]

note_reserved_bitmap : (s : Frames) (desc : ℕ) → (note_reserved s desc).page_bitmap ≡ s.page_bitmap
unfolding note_reserved
note_reserved_bitmap s desc = elim (Bool-cases (counts_reserved (memory_type s.mem desc))) [
  | inl yes_it_does ↦ rw yes_it_does
  | inr not_so ↦ rw not_so
]

read_descriptor-Reads :
    (s : Frames) (desc : ℕ)
    → ((memory_type s.mem desc == conventional_memory) ≡ true → end_page s.mem desc ≤ max_pages)
    → Reads desc s (read_descriptor s desc)
unfolding read_descriptor
read_descriptor-Reads s desc fits =
    let given = give_back-Reads s desc fits in
    let mem = note_reserved_mem (give_back s desc) desc in
    let bitmap = note_reserved_bitmap (give_back s desc) desc in
    record {
      same_bitmap = bitmap ∙ given.same_bitmap;
      bits = λ j. rw (mem, bitmap) (given.bits j);
      frame = λ x out. rw mem (given.frame x out);
    }

-- What an entry offers, as read through a memory that agrees outside the bitmap.
is_offered_same :
    (b : Bitmap) (k m : Memory) (desc j : ℕ)
    → Apart b desc
    → AgreeOutside b k m
    → is_offered k desc j ≡ is_offered m desc j
unfolding is_offered
is_offered_same b k m desc j apart agree = rw (
  type_same b k m desc apart agree,
  field_same 8 b k m desc 8 apart (omega arith) agree,
  field_same 8 b k m desc 24 apart (omega arith) agree,
)

-- An entry that is conventional memory does not run over the end of the address space.
abbrev pub Fits : Memory → ℕ → Type 0
Fits m desc = (memory_type m desc == conventional_memory) ≡ true → end_page m desc ≤ max_pages

Fits-same :
    (b : Bitmap) (k m : Memory) (desc : ℕ)
    → Apart b desc
    → AgreeOutside b k m
    → Fits m desc
    → Fits k desc
Fits-same b k m desc apart agree =
    rw
      (
        type_same b k m desc apart agree,
        field_same 8 b k m desc 8 apart (omega arith) agree,
        field_same 8 b k m desc 24 apart (omega arith) agree,
      )
      (λ h. h)

-- What the pass comes to, in terms of the memory map as the firmware left it in `m`.
pub record Passed (m : Memory) (offered : ℕ → Bool) (s t : Frames) : Type 0 where
  pub same_bitmap : t.page_bitmap ≡ s.page_bitmap
  pub bits :
      (j : ℕ)
      → page_used t j ≡ (if offered j && not (beyond s.page_bitmap j) then false else page_used s j)
  pub frame : AgreeOutside s.page_bitmap t.mem m

-- The entries from `i` up to `end` can be read and lie in the address space.
pub record IsReadable (m : Memory) (b : Bitmap) (map descriptor_size i end : ℕ) : Type 0 where
  pub apart : (k : ℕ) → i ≤ k → k < end → Apart b (descriptor map descriptor_size k)
  pub fits : (k : ℕ) → i ≤ k → k < end → Fits m (descriptor map descriptor_size k)

module _ (m : Memory) (map descriptor_size end : ℕ) where
  pub read_descriptors-Passed :
      (left i : ℕ) (s : Frames)
      → i + left ≡ end
      → AgreeOutside s.page_bitmap s.mem m
      → IsReadable m s.page_bitmap map descriptor_size i end
      → Passed m
          (offers m map descriptor_size left i)
          s
          (read_descriptors map descriptor_size left i s)
  unfolding read_descriptors offers
  read_descriptors-Passed zero i s e agree readable = record {
    same_bitmap = refl;
    bits = λ j. refl;
    frame = agree;
  }
  read_descriptors-Passed (suc left) i s e agree readable =
      let desc = descriptor map descriptor_size i in
      let apart = readable.apart i (omega arith) (omega arith) in
      let first = read_descriptor-Reads s desc (
        Fits-same s.page_bitmap s.mem m desc apart agree
          (readable.fits i (omega arith) (omega arith))) in
      let offered = is_offered_same s.page_bitmap s.mem m desc in
      let t = read_descriptor s desc in
      let rest =
        read_descriptors-Passed left (i + 1) t (omega arith)
          (λ x out.
            first.frame x (rw (← first.same_bitmap) out) ∙ agree x (rw (← first.same_bitmap) out))
          (record {
            apart = λ k lo hi. rw first.same_bitmap (readable.apart k (omega arith) hi);
            fits = λ k lo hi. readable.fits k (omega arith) hi;
          }) in
      record {
        same_bitmap = rest.same_bitmap ∙ first.same_bitmap;
        bits = λ j.
            ground (arith, rest.bits j, first.bits j, first.same_bitmap, offered j apart agree);
        frame = λ x out. rest.frame x (rw first.same_bitmap out);
      }
