-- ===== src/Config.antt =====
-- src/seerflow/config.py and _config_validation.py: settings and their validation.
pub mod Detection
