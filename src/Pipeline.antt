-- ===== src/Pipeline.antt =====
-- The node pipeline that every generator runs first.
pub mod Protocols
pub mod Names
pub mod Filters
pub mod Prepare
pub mod Renames
