-- ===== src/ThreatIntel.antt =====
-- src/seerflow/threat_intel/: feeds of indicators.
pub mod Circuit
pub mod Bloom
pub mod Matcher
