-- ===== src/Perf.antt =====
-- tools/perf_baseline.py
pub mod Count
pub mod Baseline
pub mod Measure
pub mod Run
pub mod Main
pub mod Compiled
pub mod Prebuilt
