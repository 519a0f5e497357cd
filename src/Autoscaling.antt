-- ===== src/Autoscaling.antt =====
-- internal/control_plane/autoscaling: the scaling decision and the loop that makes it.
pub mod Floats
pub mod Metadata
pub mod Total
pub mod Window
pub mod Segments
pub mod Recent
pub mod Scale
pub mod Sums
pub mod Average
pub mod Panic
pub mod Defaults
pub mod Controller
mod Tests
