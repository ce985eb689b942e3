-- ===== src/Models.antt =====
-- The data model: src/seerflow/models/.
pub mod Event
pub mod Alert
pub mod Query
pub mod Entity
