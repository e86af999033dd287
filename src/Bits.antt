-- ===== src/Bits.antt =====
-- The bit operators of C on unsigned numbers, and their laws as arithmetic at every width.
mod Digits
pub mod Fields
pub mod Masks
pub mod Xor
pub use Fields.*
pub use Masks.*
pub use Xor.*
