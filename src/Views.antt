-- ===== src/Views.antt =====
-- packages/dev-frontend/src/components: the view state machines of the Trove, the Stability Pool and
-- liquidity mining, and the providers that run them.
pub mod Provider
pub mod TroveView
pub mod StabilityView
pub mod MineView
pub mod TransactionMonitor
pub mod StakingView
mod Tests
