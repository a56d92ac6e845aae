-- ===== src/Core.antt =====
-- engine/core/types.py: the value objects that the engines share, and the numbers they hold.
pub mod Enums
pub mod Float
pub mod Decimal
pub mod Candle
