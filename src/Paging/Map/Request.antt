-- ===== src/Paging/Map/Request.antt =====
-- A new table: what requesting its page, clearing it and linking it leave.
use mad_os.Paging.Map.{linked}
use mad_os.Paging.Map.Entries.{
  linked_lem, entry_at-store_self, entry_at-store_ne, entry_at_cong, zero_entries,
}
use mad_os.Paging.Map.Tree.{Apart, Sound}
use mad_os.Paging.Walk.{entry_at}
use mad_os.Paging.Entry.{present, get_flag, get_address}
use mad_os.Base.{
  ℕ, zero, suc, ◌+◌, ◌-◌, ◌*◌, ◌/◌, ◌%◌, ◌^◌, ◌≤◌, ◌<◌, ◌≡◌, ◌≢◌, ◌⊎◌, inl, inr, sym, ap, ◌∙◌, true,
  false, ◌==◌, if◌then◌else◌, arith, Bool-cases, ltb,
}
use mad_os.Memory.{Memory, fill, store64}
use mad_os.Memory.Laws.{IsBytes, store_frame, store-IsBytes, load-lt}
use mad_os.Bitmap
use mad_os.Bitmap.{Bitmap, beyond}
use mad_os.Bitmap.Laws.{get_cong, set-IsBytes}
use mad_os.Frames.{
  Frames, page_used, page_limit, addr_of, allocate_page, request_loop, request_page,
}
use mad_os.Frames.Cursor.{IsLow}
use mad_os.Frames.Request.{Takes}

-- Writes outside the bitmap's bytes leave its bits.
pub get_outside :
    (m k : Memory) (b : Bitmap) (i : ℕ)
    → ((x : ℕ) → b.buffer ≤ x → x ≤ b.buffer + b.size → m x ≡ k x)
    → Bitmap.get m b i ≡ Bitmap.get k b i
get_outside m k b i same = elim (Bool-cases (beyond b i)) [
  | inl out ↦ Bitmap.Laws.get-beyond m b i out ∙ sym (Bitmap.Laws.get-beyond k b i out)
  | inr in_b ↦ get_cong m k b i (same (b.buffer + i / 8) (omega arith) (ground arith))
]

pub allocate_page-IsBytes :
    (s : Frames) (addr : ℕ) → IsBytes s.mem → IsBytes (allocate_page s addr).mem
unfolding allocate_page
allocate_page-IsBytes s addr h =
    let wrote : IsBytes (Bitmap.set s.mem s.page_bitmap (addr / 4096) true).0 =
      set-IsBytes s.mem s.page_bitmap (addr / 4096) true h in
    elim (Bool-cases (page_used s (addr / 4096))) [
      | inl used ↦ rw used h
      | inr free ↦ elim (Bool-cases (Bitmap.set s.mem s.page_bitmap (addr / 4096) true).1) [
        | inl did ↦ rw (free, did) wrote
        | inr not_done ↦ rw (free, not_done) h
      ]
    ]

request_loop-IsBytes : (left : ℕ) (s : Frames) → IsBytes s.mem → IsBytes (request_loop left s).0.mem
unfolding request_loop
request_loop-IsBytes zero s h = h
request_loop-IsBytes (suc left) s h = elim (Bool-cases (page_used s s.bitmap_index)) [
  | inl used ↦
      rw (used, request_loop)
        (request_loop-IsBytes left (record s { bitmap_index = s.bitmap_index + 1 }) h)
  | inr free ↦ rw (free, request_loop) (allocate_page-IsBytes s (addr_of s.bitmap_index) h)
]

pub request_page-IsBytes : (s : Frames) → IsBytes s.mem → IsBytes (request_page s).0.mem
unfolding request_page
request_page-IsBytes s h = request_loop-IsBytes (page_limit s - s.bitmap_index) s h

-- A free page holds no byte of the bitmap.
pub free-Apart : (s : Frames) (k : ℕ) → Sound s → page_used s k ≡ false → Apart s.page_bitmap k
free-Apart s k sound free x e = elim (Bool-cases (ltb x s.page_bitmap.buffer)) [
  | inl below ↦ inl (ground arith)
  | inr above ↦ elim (Bool-cases (ltb (s.page_bitmap.buffer + s.page_bitmap.size) x)) [
    | inl behind ↦ inr (ground arith)
    | inr within ↦
        let used : page_used s (x / 4096) ≡ true =
          sound.bitmap_used x (ground arith) (ground arith) in
        let used' : page_used s k ≡ true = rw e at used in ground (arith, used', free)
  ]
]

-- What a new table in page `k`, linked from entry `i` of the table in page `p`, comes to.
pub record Links (k p i : ℕ) (s u : Frames) : Type 0 where
  pub same_bitmap : u.page_bitmap ≡ s.page_bitmap
  pub used : (j : ℕ) → page_used u j ≡ (if k == j then true else page_used s j)
  pub sound : Sound u
  pub link : get_flag (entry_at u.mem p i) present ≡ true
  pub target : get_address (entry_at u.mem p i) ≡ k
  pub fresh : (j : ℕ) → j < 512 → get_flag (entry_at u.mem k j) present ≡ false
  pub other :
      (q j : ℕ)
      → j < 512
      → q ≢ k
      → Apart s.page_bitmap q
      → (p ≢ q) ⊎ (i ≢ j)
      → entry_at u.mem q j ≡ entry_at s.mem q j

module _ (s t : Frames) (k p i : ℕ) (sound : Sound s) (takes : Takes k s t (k * 4096))
    (bytes : IsBytes t.mem) (hi : i < 512) (differ : p ≢ k) (table : Apart s.page_bitmap p) where
  -- The word that is written.
  abbrev word : ℕ
  word = linked (entry_at s.mem p i) (k * 4096)

  abbrev cleared : Memory
  cleared = fill t.mem (k * 4096) 4096 0

  abbrev linked_memory : Memory
  linked_memory = store64 cleared (p * 4096 + i * 8) word

  abbrev after : Frames
  after = record t { mem = linked_memory }

  word_lem :
      (get_flag word present ≡ true)
      × (get_address word ≡ k * 4096 / 4096 % 2 ^ 40)
      × (word < 2 ^ 64)
  word_lem =
      linked_lem (entry_at s.mem p i) (k * 4096) (load-lt 8 s.mem (p * 4096 + i * 8) sound.bytes)

  fill_frame : (x : ℕ) → x / 4096 ≢ k → cleared x ≡ t.mem x
  unfolding fill
  fill_frame x ne = ground arith

  clear : (x : ℕ) → x / 4096 ≢ k → x / 4096 ≢ p → linked_memory x ≡ t.mem x
  clear x ne ne' =
      store_frame 8 cleared (p * 4096 + i * 8) word x (ground (arith, ne')) ∙ fill_frame x ne

  not_bitmap :
      (q x : ℕ)
      → Apart s.page_bitmap q
      → s.page_bitmap.buffer ≤ x
      → x ≤ s.page_bitmap.buffer + s.page_bitmap.size
      → x / 4096 ≢ q
  not_bitmap q x apart lo hi e = ground (arith, apart x e)

  kept_bits : (j : ℕ) → Bitmap.get linked_memory s.page_bitmap j ≡ Bitmap.get t.mem s.page_bitmap j
  kept_bits j = get_outside linked_memory t.mem s.page_bitmap j (λ x lo hi.
      clear x (not_bitmap k x (free-Apart s k sound takes.was_free) lo hi)
        (not_bitmap p x table lo hi))

  requested : (j : ℕ) → Bitmap.get t.mem s.page_bitmap j ≡ (if k == j then true else page_used s j)
  requested j = ground (arith, takes.writes.writes.bits j, takes.within)

  after-used : (j : ℕ) → page_used after j ≡ (if k == j then true else page_used s j)
  after-used j = rw takes.writes.same_bitmap (kept_bits j ∙ requested j)

  after-other :
      (q j : ℕ)
      → j < 512
      → q ≢ k
      → Apart s.page_bitmap q
      → (p ≢ q) ⊎ (i ≢ j)
      → entry_at linked_memory q j ≡ entry_at s.mem q j
  after-other q j hj ne apart away =
      entry_at-store_ne cleared p i q j word hi hj away
      ∙ entry_at_cong cleared t.mem q j hj (λ x e. fill_frame x (λ e'. ne (sym e ∙ e')))
      ∙ entry_at_cong t.mem s.mem q j hj (λ x e. takes.writes.writes.frame x (apart x e))

  after-fresh : (j : ℕ) → j < 512 → get_flag (entry_at linked_memory k j) present ≡ false
  after-fresh j hj =
      ap (λ e. get_flag e present) (entry_at-store_ne cleared p i k j word hi hj (inl differ))
      ∙ zero_entries t.mem k j hj

  after-IsLow : IsLow after
  after-IsLow j h = rw takes.writes.same_bitmap (kept_bits j) ∙ takes.low j h

  cleared-IsBytes : IsBytes cleared
  unfolding fill
  cleared-IsBytes x = ground (arith, bytes x)

  after-bitmap_used :
      (x : ℕ)
      → s.page_bitmap.buffer ≤ x
      → x ≤ s.page_bitmap.buffer + s.page_bitmap.size
      → page_used after (x / 4096) ≡ true
  after-bitmap_used x lo up = ground (arith, after-used (x / 4096), sound.bitmap_used x lo up)

  after-Sound : Sound after
  after-Sound = record {
    bytes = store-IsBytes 8 cleared (p * 4096 + i * 8) word cleared-IsBytes;
    low = after-IsLow;
    small = ground (arith, takes.writes.same_bitmap, sound.small);
    bitmap_used = λ x lo up.
        after-bitmap_used x (rw takes.writes.same_bitmap at lo) (rw takes.writes.same_bitmap at up);
  }

  pub new_table-Links : Links k p i s after
  new_table-Links = record {
    same_bitmap = takes.writes.same_bitmap;
    used = after-used;
    sound = after-Sound;
    link =
        ap (λ e. get_flag e present) (entry_at-store_self cleared p i word word_lem.2) ∙ word_lem.0;
    target =
        ap get_address (entry_at-store_self cleared p i word word_lem.2)
        ∙ word_lem.1
        ∙ omega (arith, takes.within, sound.small);
    fresh = after-fresh;
    other = after-other;
  }
