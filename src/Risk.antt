-- ===== src/Risk.antt =====
-- src/modules/risk: the deterministic gate that every proposal passes.
pub mod Types
pub mod Engine
pub mod Tests
