-- ===== src/Prelude/Bits.antt =====
-- Laws of `&`, `|` and `^`, for words of every width.
mod Step
mod Xor
mod Mask
pub use Step.*
pub use Xor.*
pub use Mask.*
