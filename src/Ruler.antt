-- ===== src/Ruler.antt =====
-- The ruler's rule files and its controller: internal/pkg/manifests/ruler/builder.go and
-- internal/controller/thanosruler_controller.go.
pub mod Packing
pub mod Discovery
pub mod Tenancy
pub mod Gathering
pub mod Creating
pub mod Building
pub mod Syncing
pub mod Watching
pub mod Cleaning
pub mod Packed
pub mod ConfigMaps
pub mod Args
mod Tests
