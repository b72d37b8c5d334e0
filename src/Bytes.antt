-- ===== src/Bytes.antt =====
-- Byte strings, and the integers that they hold: `to_le_bytes`, `from_le_bytes` and their kin.
mod Codec
mod Slices
pub use Codec.*
unfoldable pub use Slices.*
