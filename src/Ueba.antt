-- ===== src/Ueba.antt =====
-- src/seerflow/ueba: what entities usually do.
pub mod Store
pub mod Baseline
pub mod Engine
