-- ===== src/Api.antt =====
-- src/seerflow/api: what the web interface keeps in memory.
pub mod Latency
pub mod Connections
pub mod Timeline
