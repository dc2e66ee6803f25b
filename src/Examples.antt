-- ===== src/Examples.antt =====
-- The theorems at concrete inputs, and the concrete cluster that they are applied to.
pub mod Fixtures
mod Archives
mod Naming
mod Retrying
mod Crds
mod Clusters
mod Moves
pub mod Defaulting
mod Mutating
mod Converting
pub mod Controlling
pub mod Certifying
mod Constructing
