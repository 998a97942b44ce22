-- ===== src/Store.antt =====
-- packages/lib-base/src/HLiquityStore.ts: the store, part by part.
pub mod State
pub mod Identity
pub mod Derive
pub mod Rates
pub mod Agrees
pub mod Update
pub mod Listeners
mod Tests
mod UpdateTests
