-- ===== src/Coding/Rans.antt =====
-- aether-core/src/coding/rans.rs: the range encoder with its carry, the decoder, and the coding of a
-- block with a predictor.
pub mod Encoder
pub mod Decoder
pub mod Blocks
pub mod Value
pub mod Carry
pub mod Window
pub mod Steps
pub mod Loops
pub mod Intervals
pub mod Finish
pub mod RoundTrip
pub mod Total
pub mod Reset
mod Tests
use aether_arch.Base.{ℕ, ◌^◌}

-- `TOP`
abbrev pub top : ℕ
top = 2 ^ 24
