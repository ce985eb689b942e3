-- ===== src/Receivers.antt =====
-- src/seerflow/receivers: from a log source to the queue of raw events.
pub mod Manager
