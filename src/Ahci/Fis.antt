-- ===== src/Ahci/Fis.antt =====
-- The bytes of the commands of `Read` and `Write`, and the words of the data that they name.
use mad_os.Ahci.Command.{assign, set_data, read_fis, write_fis}
use mad_os.Base.{
  ℕ, ◌+◌, ◌-◌, ◌*◌, ◌/◌, ◌%◌, ◌^◌, ◌≤◌, ◌<◌, ◌≡◌, ◌⊎◌, inl, inr, ◌∙◌, u8, u32, ◌>>>◌, arith,
}
use mad_os.Base.Bits.{bit_and_mask}
use mad_os.Memory.{Memory, store8, load32, load64, store32}
use mad_os.Memory.Laws.{load-store, load-store_apart, load-zeros, load64-words, store_frame}

-- The data part of a command table.
module _ (m : Memory) (table buf count : ℕ)
    (clean : (x : ℕ) → table ≤ x → x < table + 144 → m x ≡ 0) (word : buf < 2 ^ 64)
    (some_ : 0 < count) (few : count ≤ 8192) where
  abbrev data_1 : Memory
  data_1 = store32 m (table + 0x80) (u32 buf)

  abbrev data_2 : Memory
  data_2 = store32 data_1 (table + 0x84) (u32 (buf >>> 32))

  empty : load32 m (table + 0x8c) ≡ 0
  empty = load-zeros 4 m (table + 0x8c) (λ x lo hi. clean x (omega arith) (omega arith))

  no_bytes : load32 data_2 (table + 0x8c) ≡ 0
  no_bytes =
      load-store_apart 4 4 data_1 (table + 0x8c) (table + 0x84) (u32 (buf >>> 32))
        (inr (omega arith))
      ∙ load-store_apart 4 4 m (table + 0x8c) (table + 0x80) (u32 buf) (inr (omega arith))
      ∙ empty

  low_word : load32 (set_data m table buf count) (table + 0x80) ≡ u32 buf
  unfolding set_data
  low_word =
      load-store_apart 4 4 data_2 (table + 0x80) (table + 0x8c) _ (inl (omega arith))
      ∙ load-store_apart 4 4 data_1 (table + 0x80) (table + 0x84) (u32 (buf >>> 32))
          (inl (omega arith))
      ∙ load-store 4 m (table + 0x80) (u32 buf)
      ∙ omega arith

  high_word : load32 (set_data m table buf count) (table + 0x84) ≡ u32 (buf >>> 32)
  unfolding set_data
  high_word =
      load-store_apart 4 4 data_2 (table + 0x84) (table + 0x8c) _ (inl (omega arith))
      ∙ load-store 4 data_1 (table + 0x84) (u32 (buf >>> 32))
      ∙ omega arith

  pub last_word : load32 (set_data m table buf count) (table + 0x8c) ≡ count * 512 - 1
  unfolding set_data
  last_word = rw no_bytes (load-store 4 data_2 (table + 0x8c) _ ∙ omega arith)

  pub double_word : load64 (set_data m table buf count) (table + 0x80) ≡ buf
  double_word =
      let e : table + 0x80 + 4 ≡ table + 0x84 = omega arith in
      load64-words (set_data m table buf count) (table + 0x80)
      ∙ rw e (omega (arith, low_word, high_word))

  pub set_data_frame : (x : ℕ) → x < table + 0x80 → set_data m table buf count x ≡ m x
  unfolding set_data
  set_data_frame x lt =
      store_frame 4 data_2 (table + 0x8c) _ x (inl (omega arith))
      ∙ store_frame 4 data_1 (table + 0x84) _ x (inl (omega arith))
      ∙ store_frame 4 m (table + 0x80) _ x (inl (omega arith))

-- What lies outside the command table stays.
module _ (m : Memory) (table x : ℕ) (out : (x < table) ⊎ (table + 144 ≤ x)) where
  pub set_data_outside : (buf count : ℕ) → set_data m table buf count x ≡ m x
  unfolding set_data
  set_data_outside buf count =
      let m1 = store32 m (table + 0x80) (u32 buf) in
      let m2 = store32 m1 (table + 0x84) (u32 (buf >>> 32)) in
      store_frame 4 m2 (table + 0x8c) _ x (omega (arith, out))
      ∙ store_frame 4 m1 (table + 0x84) _ x (omega (arith, out))
      ∙ store_frame 4 m (table + 0x80) _ x (omega (arith, out))

  pub read_fis_outside : (startl starth count : ℕ) → read_fis m table startl starth count x ≡ m x
  unfolding read_fis assign store8
  read_fis_outside startl starth count = ground (arith, out)

  pub write_fis_outside : (startl starth count : ℕ) → write_fis m table startl starth count x ≡ m x
  unfolding write_fis assign store8
  write_fis_outside startl starth count = ground (arith, out)

-- The bytes of a command; the upper three of the sector's number come from `b3`, `b4` and `b5`.
abbrev pub FisBytes : (table startl count : ℕ) (k : Memory) (command b3 b4 b5 : ℕ) → Type 0
FisBytes table startl count k command b3 b4 b5 =
    (k table ≡ 0x27)
    × (k (table + 1) ≡ 0x80)
    × (k (table + 2) ≡ command)
    × (k (table + 7) ≡ 0x40)
    × (k (table + 4) ≡ u8 startl)
    × (k (table + 5) ≡ u8 (startl >>> 8))
    × (k (table + 6) ≡ u8 (startl >>> 16))
    × (k (table + 8) ≡ u8 b3)
    × (k (table + 9) ≡ u8 b4)
    × (k (table + 10) ≡ u8 b5)
    × (k (table + 12) ≡ count % 256)
    × (k (table + 13) ≡ count / 256 % 256)

-- What the two functions assign.
module _ (m : Memory) (table startl starth count : ℕ) (clean : m (table + 1) ≡ 0) where
  pub reads_frame : (x : ℕ) → table + 14 ≤ x → read_fis m table startl starth count x ≡ m x
  unfolding read_fis assign store8
  reads_frame x h = ground arith

  pub writes_frame : (x : ℕ) → table + 14 ≤ x → write_fis m table startl starth count x ≡ m x
  unfolding write_fis assign store8
  writes_frame x h = ground arith

  pub read_fis-bytes :
      FisBytes table startl count
        (read_fis m table startl starth count)
        0x25
        starth
        (starth >>> 8)
        (starth >>> 16)
  unfolding read_fis assign store8
  read_fis-bytes =
      let low = bit_and_mask 8 count in
      let high = bit_and_mask 8 (count >>> 8) in
      rw (clean, low, high)
        (
          ground arith,
          ground arith,
          ground arith,
          ground arith,
          ground arith,
          ground arith,
          ground arith,
          ground arith,
          ground arith,
          ground arith,
          ground arith,
          ground arith,
        )

  pub write_fis-bytes :
      FisBytes table startl count
        (write_fis m table startl starth count)
        0x35
        (startl >>> 24)
        starth
        (starth >>> 8)
  unfolding write_fis assign store8
  write_fis-bytes =
      let low = bit_and_mask 8 count in
      rw (clean, low)
        (
          ground arith,
          ground arith,
          ground arith,
          ground arith,
          ground arith,
          ground arith,
          ground arith,
          ground arith,
          ground arith,
          ground arith,
          ground arith,
          ground arith,
        )
