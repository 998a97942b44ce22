-- ===== src/Trove.antt =====
-- packages/lib-base/src/Trove.ts: Troves, the changes between them, and their normal forms.
pub mod Params
pub mod Defs
pub mod Change
pub mod Laws
pub mod Rounding
pub mod Adjustment
pub mod RoundTrip
pub mod User
pub mod Normalize
pub mod Recreate
pub mod AdjustBy
mod Tests
