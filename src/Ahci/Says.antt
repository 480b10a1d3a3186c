-- ===== src/Ahci/Says.antt =====
-- What the commands of `Read` and `Write` say to the controller.
use mad_os.Ahci.Command.{with_field, set_data, set_interrupt, set_header, read_fis, prepare_read}
use mad_os.Base.{
  ℕ, ◌+◌, ◌-◌, ◌*◌, ◌/◌, ◌%◌, ◌^◌, ◌≤◌, ◌<◌, ◌≡◌, ◌⊎◌, inl, refl, ◌∙◌, ap, ◌>>>◌, arith,
}
use mad_os.Base.Run.{done}
use mad_os.MemSet.Correct.{memset-fill}
use mad_os.Memory.{Memory, load32, load64, fill}
use mad_os.Memory.Laws.{load_cong, load-store, load-store_apart, store_frame}
use mad_os.Ahci.Fis.{
  double_word, last_word, set_data_frame, set_data_outside, read_fis_outside, reads_frame, FisBytes,
  read_fis-bytes,
}
use mad_os.Ahci.Heads.{Heads, IsSlot, set_header-table, set_header-Heads}

-- A command as the controller reads it from a command header and the command table: the direction, what
-- is to be done, with which sectors, and where the data lies.
pub record Says (m : Memory) (header table w prdtl command lba count buf : ℕ) : Type 0 where
  pub headed : Heads m header table w prdtl
  pub fis_type : m table ≡ 0x27
  pub is_command : m (table + 1) / 128 % 2 ≡ 1
  pub what : m (table + 2) ≡ command
  pub lba_mode : m (table + 7) ≡ 0x40
  pub sector :
      m (table + 4)
        + 2 ^ 8 * m (table + 5)
        + 2 ^ 16 * m (table + 6)
        + 2 ^ 24 * m (table + 8)
        + 2 ^ 32 * m (table + 9)
        + 2 ^ 40 * m (table + 10)
      ≡ lba
  pub sectors : m (table + 12) + 256 * m (table + 13) ≡ count
  pub buffer : load64 m (table + 0x80) ≡ buf
  pub bytes : load32 m (table + 0x8c) % 2 ^ 22 + 1 ≡ count * 512

-- A command in front of its data.
says :
    (m : Memory) (header w prdtl table startl count : ℕ) (k : Memory) (command b3 b4 b5 lba buf : ℕ)
    → Heads k header table w prdtl
    → FisBytes table startl count k command b3 b4 b5
    → ((x : ℕ) → table + 14 ≤ x → k x ≡ m x)
    → count < 2 ^ 16
    → startl % 2 ^ 24 + 2 ^ 24 * (b3 % 256) + 2 ^ 32 * (b4 % 256) + 2 ^ 40 * (b5 % 256) ≡ lba
    → load64 m (table + 0x80) ≡ buf
    → load32 m (table + 0x8c) % 2 ^ 22 + 1 ≡ count * 512
    → Says k header table w prdtl command lba count buf
says m header w prdtl table startl count k command b3 b4 b5 lba buf headed
      (t0, t1, t2, t7, l0, l1, l2, l3, l4, l5, c0, c1) frame small where_ holds bytes =
    record {
      headed = headed;
      fis_type = t0;
      is_command = omega (arith, t1);
      what = t2;
      lba_mode = t7;
      sector = omega (arith, l0, l1, l2, l3, l4, l5, where_);
      sectors = omega (arith, c0, c1);
      buffer = load_cong 8 k m (table + 0x80) (λ x lo hi. frame x (omega arith)) ∙ holds;
      bytes =
          ap (λ v. v % 2 ^ 22 + 1)
            (load_cong 4 k m (table + 0x8c) (λ x lo hi. frame x (omega arith)))
          ∙ bytes;
    }

fill-outside : (m : Memory) (a n x : ℕ) → (x < a) ⊎ (a + n ≤ x) → fill m a n 0 x ≡ m x
unfolding fill
fill-outside m a n x out = ground (arith, out)

fill-clean : (m : Memory) (a n x : ℕ) → a ≤ x → x < a + n → fill m a n 0 x ≡ 0
unfolding fill
fill-clean m a n x lo hi = ground arith

pub prepare_read-Says :
    (m : Memory) (header buf startl starth count : ℕ)
    → buf < 2 ^ 64
    → 0 < count
    → count ≤ 8192
    → IsSlot m header 144
    → (m' : Memory) × (prepare_read m header buf startl starth count ≡ done m')
      × Says m' header
          (load32 m (header + 8))
          0
          1
          0x25
          (startl % 2 ^ 24 + 2 ^ 24 * (starth % 2 ^ 24))
          count
          buf
unfolding prepare_read set_interrupt
prepare_read-Says m header buf startl starth count word some_ few slot =
    let table = load32 m (header + 8) in
    let m1 = set_header m header 0 1 in
    let m2 = fill m1 table 144 0 in
    let clean = fill-clean m1 table 144 in
    let m3 = set_data m2 table buf count in
    let m4 = set_interrupt m3 table in
    let last = last_word m2 table buf count clean word some_ few in
    let clean_byte : m4 (table + 1) ≡ 0 =
      store_frame 4 m3 (table + 0x8c) _ (table + 1) (inl (omega arith))
      ∙ set_data_frame m2 table buf count clean word some_ few (table + 1) (omega arith)
      ∙ clean (table + 1) (omega arith) (omega arith) in
    let holds : load64 m4 (table + 0x80) ≡ buf =
      load-store_apart 8 4 m3 (table + 0x80) (table + 0x8c) _ (inl (omega arith))
      ∙ double_word m2 table buf count clean word some_ few in
    let bytes : load32 m4 (table + 0x8c) % 2 ^ 22 + 1 ≡ count * 512 =
      rw last
        (omega (arith, load-store 4 m3 (table + 0x8c) (with_field (count * 512 - 1) 31 1 1))) in
    let m5 = read_fis m4 table startl starth count in
    let kept : (x : ℕ) → header ≤ x → x < header + 32 → m5 x ≡ m1 x = λ x lo hi.
      let out : (x < table) ⊎ (table + 144 ≤ x) = omega (arith, slot.apart) in
      read_fis_outside m4 table x out startl starth count
      ∙ store_frame 4 m3 (table + 0x8c) _ x (omega (arith, out))
      ∙ set_data_outside m2 table x out buf count
      ∙ fill-outside m1 table 144 x out in
    (
      m5,
      rw (set_header-table m header 0 1, memset-fill m1 table 0 144 (omega arith)) refl,
      says m4 header 0 1 table startl count m5 0x25 starth (starth >>> 8) (starth >>> 16) _ buf
          (set_header-Heads m m5 header 0 1 144 (omega arith) (omega arith) slot kept)
          (read_fis-bytes m4 table startl starth count clean_byte)
          (reads_frame m4 table startl starth count clean_byte) (omega arith) (omega arith) holds
          bytes,
    )

-- The entries for the data that `Write` counts, and the bytes of the table with them.
abbrev pub entries_of : ℕ → ℕ
entries_of count = (count - 1) / 16 + 1
