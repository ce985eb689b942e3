-- ===== src/Alerting.antt =====
-- src/seerflow/alerting: from an alert raised to the channels that deliver it.
pub mod Router
pub mod Retry
pub mod Dispatcher
