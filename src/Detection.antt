-- ===== src/Detection.antt =====
-- src/seerflow/detection: the detectors, their thresholds, and the numbers that they calculate with.
pub mod Floats
pub mod Samples
pub mod Cusum
pub mod Markov
pub mod Threshold
