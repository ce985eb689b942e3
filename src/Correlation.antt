-- ===== src/Correlation.antt =====
-- src/seerflow/correlation/: events kept by entity, and the alerts drawn from them.
pub mod Window
pub mod Watermark
pub mod KillChain
pub mod Risk
pub mod Engine
