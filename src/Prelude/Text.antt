-- ===== src/Prelude/Text.antt =====
-- Texts: equality as a decision, order, code points, decimal numerals.
mod Equality
mod Decimal
mod Order
mod Blank
pub mod RoundTrip
unfoldable pub use Equality.*
unfoldable pub use Decimal.*
unfoldable pub use Order.*
unfoldable pub use Blank.*
