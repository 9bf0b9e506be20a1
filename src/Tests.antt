-- ===== src/Tests.antt =====
-- Concrete instances of what the program calls, and the theorems at concrete inputs.
pub mod Slices
pub mod SecretWorld
pub mod Secrets
pub mod NetworkWorld
pub mod Networks
pub mod Participating
pub mod Jetstreams
pub mod Texts
pub mod Elsewhere
pub mod Streams
pub mod ClusterWorld
pub mod JsonWorld
pub mod Json
pub mod Cluster
pub mod Life
pub mod Interleaved
