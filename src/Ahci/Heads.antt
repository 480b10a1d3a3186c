-- ===== src/Ahci/Heads.antt =====
-- What the command headers of `Read` and `Write` say to the controller.
use mad_os.Ahci.Command.{with_field, set_header}
use mad_os.Base.{ℕ, ◌+◌, ◌/◌, ◌%◌, ◌^◌, ◌≤◌, ◌<◌, ◌≡◌, ◌⊎◌, inl, inr, ◌∙◌, ap, arith}
use mad_os.Memory.{Memory, load, load32}
use mad_os.Memory.Laws.{store8_other, store8_self, load_cong, load-store, store_frame}

-- A command header as the controller reads it: the command has five words, `w` is 1 if data goes to the
-- drive, the table has `prdtl` entries for the data, and lies at `table`. It is no packet command, nor
-- one that resets or tests the link.
pub record Heads (m : Memory) (header table w prdtl : ℕ) : Type 0 where
  pub words : m header % 32 ≡ 5
  pub no_packet : m header / 32 % 2 ≡ 0
  pub direction : m header / 64 % 2 ≡ w
  pub no_flags : m (header + 1) ≡ 0
  pub entries : load 2 m (header + 2) ≡ prdtl
  pub points : load32 m (header + 8) ≡ table

-- The header of a slot that is used for ordinary commands, with its table of `size` bytes elsewhere.
pub record IsSlot (m : Memory) (header size : ℕ) : Type 0 where
  pub packet_off : m header / 32 % 2 ≡ 0
  pub flags_off : m (header + 1) ≡ 0
  pub apart : (header + 32 ≤ load32 m (header + 8)) ⊎ (load32 m (header + 8) + size ≤ header)

-- The header keeps the address of its command table.
pub set_header-table :
    (m : Memory) (header w prdtl : ℕ)
    → load32 (set_header m header w prdtl) (header + 8) ≡ load32 m (header + 8)
unfolding set_header
set_header-table m header w prdtl =
    load_cong 4 (set_header m header w prdtl) m (header + 8) (λ x lo hi.
      store_frame 2 _ (header + 2) prdtl x (inr (omega arith))
      ∙ store8_other _ header _ x (λ e. omega arith)
      ∙ store8_other m header _ x (λ e. omega arith))

set_header-byte :
    (m : Memory) (header w prdtl : ℕ)
    → set_header m header w prdtl header ≡ with_field (with_field (m header) 0 5 5) 6 1 w
unfolding set_header
set_header-byte m header w prdtl =
    store_frame 2 _ (header + 2) prdtl header (inl (omega arith))
    ∙ store8_self _ header _
    ∙ ap (λ (v : ℕ). with_field v 6 1 w) (store8_self m header _)

-- The header that is set, in every memory that agrees with it.
pub set_header-Heads :
    (m k : Memory) (header w prdtl size : ℕ)
    → w < 2
    → prdtl < 2 ^ 16
    → IsSlot m header size
    → ((x : ℕ) → header ≤ x → x < header + 32 → k x ≡ set_header m header w prdtl x)
    → Heads k header (load32 m (header + 8)) w prdtl
unfolding set_header
set_header-Heads m k header w prdtl size bit_w short slot same =
    let byte : k header ≡ with_field (with_field (m header) 0 5 5) 6 1 w =
      same header (omega arith) (omega arith) ∙ set_header-byte m header w prdtl in
    record {
      words = omega (arith, byte);
      no_packet = omega (arith, byte, slot.packet_off);
      direction = omega (arith, byte);
      no_flags =
          same (header + 1) (omega arith) (omega arith)
          ∙ store_frame 2 _ (header + 2) prdtl (header + 1) (inl (omega arith))
          ∙ store8_other _ header _ (header + 1) (λ e. omega arith)
          ∙ store8_other m header _ (header + 1) (λ e. omega arith)
          ∙ slot.flags_off;
      entries =
          load_cong 2 k _ (header + 2) (λ x lo hi. same x (omega arith) (omega arith))
          ∙ load-store 2 _ (header + 2) prdtl
          ∙ omega arith;
      points =
          load_cong 4 k _ (header + 8) (λ x lo hi. same x (omega arith) (omega arith))
          ∙ set_header-table m header w prdtl;
    }
