-- ===== src/Models.antt =====
-- The typed contracts of src/promiseguard/models.py. Text stands as `String`, a moment as the number
-- of microseconds since the epoch in UTC, an amount of an order as a decimal,
-- the rounded ones that come of it in whole cents, a float as its bit pattern.
mod Enums
mod Order
mod Decision
mod Action
mod Controls
mod Review
unfoldable pub use Enums.*
pub use Order.*
pub use Decision.*
pub use Action.*
pub use Controls.*
pub use Review.*
