-- ===== src/Convert.antt =====
-- internal/convert: the conversion that a request asks for.
pub mod Targets
pub mod Gather
pub mod Run
