-- ===== src/Pci/Enumerate.antt =====
-- The enumeration probes the AHCI controllers that configuration space shows.
use mad_os.Pci.{Ports, make_id}
use mad_os.Base.{
  ℕ, zero, suc, ◌+◌, ◌*◌, ◌/◌, ◌%◌, ◌^◌, ◌<◌, ◌≡◌, ◌==◌, ◌&&◌, if◌then◌else◌, bit_and, List, [],
  ◌∷◌, ◌++◌, inl,
}

-- Configuration space: the byte at an offset below 4 behind an address.
abbrev pub Space : Type 0
Space = (address offset : ℕ) → ℕ

-- The byte in register `reg` of a function.
abbrev pub register : Space → (bus dev func reg : ℕ) → ℕ
register space bus dev func reg =
    space (2 ^ 31 + bus * 2 ^ 16 + dev * 2 ^ 11 + func * 2 ^ 8 + reg / 4 * 4) (reg % 4)

-- Two bytes, the lower first.
abbrev pub register16 : Space → (bus dev func reg : ℕ) → ℕ
register16 space bus dev func reg =
    register space bus dev func reg + 256 * register space bus dev func (reg + 1)

abbrev pub register32 : Space → (bus dev func reg : ℕ) → ℕ
register32 space bus dev func reg =
    register16 space bus dev func reg + 65536 * register16 space bus dev func (reg + 2)

-- The ports 0xcf8 and 0xcfc give access to `space`, which does not change, and no port operation probes a
-- controller: `probed` lists those that were.
pub record Answers {S : Type 0} (ports : Ports S) (probe : S → ℕ → S) (space : Space)
    (probed : S → List ℕ) : Type 0 where
  pub byte :
      (s : S) (a k : ℕ) → k < 4 → (ports.inb (ports.outl s 0xcf8 a) (0xcfc + k)).1 ≡ space a k
  pub word :
      (s : S) (a k : ℕ)
      → k < 3
      → (ports.inw (ports.outl s 0xcf8 a) (0xcfc + k)).1 ≡ space a k + 256 * space a (k + 1)
  pub double :
      (s : S) (a : ℕ)
      → (ports.inl (ports.outl s 0xcf8 a) 0xcfc).1
        ≡ space a 0 + 256 * space a 1 + 65536 * (space a 2 + 256 * space a 3)
  pub kept_outl : (s : S) (port value : ℕ) → probed (ports.outl s port value) ≡ probed s
  pub kept_inb : (s : S) (port : ℕ) → probed (ports.inb s port).0 ≡ probed s
  pub kept_inw : (s : S) (port : ℕ) → probed (ports.inw s port).0 ≡ probed s
  pub kept_inl : (s : S) (port : ℕ) → probed (ports.inl s port).0 ≡ probed s
  pub logged : (s : S) (a : ℕ) → probed (probe s a) ≡ probed s ++ (a ∷ [])

-- The controllers among some functions, devices and busses, in their order: a function is one if it is
-- present and of class 1, subclass 6 and interface 1.
unfoldable pub controllers_at : Space → (bus dev func : ℕ) → List ℕ
controllers_at space bus dev func =
    if register16 space bus dev func 0 == 0xffff
    then []
    else if (register space bus dev func 11 == 1)
        && (register space bus dev func 10 == 6)
        && (register space bus dev func 9 == 1)
    then register32 space bus dev func 0x24 ∷ []
    else []

-- The lists of `left` numbers from `i` on, one behind the other.
unfoldable pub gather : ℕ → (ℕ → List ℕ) → ℕ → List ℕ
gather zero f i = []
gather (suc left) f i = f i ++ gather left f (i + 1)

-- The functions of a device: eight, if the highest bit of its header type is set, else one.
unfoldable pub controllers_of_device : Space → (bus dev : ℕ) → List ℕ
controllers_of_device space bus dev =
    gather (if bit_and (register space bus dev 0 14) 0x80 == 0 then 1 else 8)
      (controllers_at space bus dev) 0

unfoldable pub controllers : Space → List ℕ
controllers space = gather 256 (λ bus. gather 32 (controllers_of_device space bus) 0) 0

module _ {S : Type 0} (ports : Ports S) (probe : S → ℕ → S) (space : Space) (probed : S → List ℕ)
    (answers : Answers ports probe space probed) where
  module _ (bus dev func : ℕ) (hb : bus < 256) (hd : dev < 32) (hf : func < 8) where
    abbrev id : ℕ
    id = make_id bus dev func
