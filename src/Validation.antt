-- ===== src/Validation.antt =====
-- packages/dev-frontend/src/components: the validation of changes before they are sent.
pub mod TroveChecks
pub mod TroveValidation
pub mod TroveSafety
pub mod StabilityValidation
mod Tests
