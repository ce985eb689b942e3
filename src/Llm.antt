-- ===== src/Llm.antt =====
-- src/seerflow/llm/: the caches in front of the language model.
pub mod TtlCache
