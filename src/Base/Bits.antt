-- ===== src/Base/Bits.antt =====
-- Laws of the bit operations. The kernel masks, sets and clears single bits and bit fields of
-- words of 8, 32 and 64 bits; the libraries have no laws for that.
mod Step
mod Fields
mod Digits
mod Write
unfoldable pub use Digits.*
pub use Fields.*
unfoldable pub use Write.*
