-- ===== src/Commands.antt =====
-- internal/service: what the commands read from their arguments. A text is the list of its code
-- points.
pub mod Text
pub mod Size
pub mod Decimal
pub mod PoolArgs
pub mod SizedArgs
pub mod Retry
pub mod Shape
pub mod Exact
pub mod Rounding
mod Tests
