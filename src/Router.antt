-- ===== src/Router.antt =====
-- The Router (router/router.js): the ring of shards and the list that it is made from.
pub mod Ring
pub mod Topology
pub mod Register
pub mod Config
pub mod Answers
pub mod Table
pub mod Status
pub mod Enroll
pub mod Resolve
pub mod Rotate
pub mod Dispatch
