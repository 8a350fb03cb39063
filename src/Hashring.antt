-- ===== src/Hashring.antt =====
-- internal/pkg/receive/hashrings.go: which endpoints a Thanos Receive hashring has, and how a new
-- hashring configuration is merged with the one in use.
pub mod Types
pub mod Endpoints
pub mod Merge
pub mod Contents
pub mod Order
pub mod Runs
pub mod Discovery
pub mod Ready
pub mod Addresses
mod Tests
pub mod Metric
