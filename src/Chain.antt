-- ===== src/Chain.antt =====
-- skeleton
pub mod Action
pub mod Asset
pub mod Context
pub mod Memory
pub mod Platform
pub mod Double
pub mod Frame
pub mod Sums
pub mod Millionths
