-- ===== src/Manifests.antt =====
-- internal/pkg/manifests: labels, command line arguments, services and the updates of objects.
pub mod Labels
pub mod Names
pub mod Merging
pub mod Selectors
pub mod StoreApi
pub mod Args
pub mod Augmenting
pub mod Services
pub mod Mutations
mod Tests
