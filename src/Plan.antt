-- ===== src/Plan.antt =====
-- tools/emit_test_plan.py: the plans of the gates.
pub mod Source
pub mod Emit
pub mod Curated
pub mod Suite
pub mod Gates
