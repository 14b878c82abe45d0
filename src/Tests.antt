-- ===== src/Tests.antt =====
-- Runs of the workers on a small host, and the theorems at concrete inputs.
mod Host
mod Values
mod Handlers
mod Copies
mod Services
mod Mesh
mod Packages
mod Conformance
mod Builds
mod Routing
mod Joint
