-- ===== src/Gate.antt =====
-- tools/proxy_gate_smoke.py: the failpoint proxy as a supervised subprocess.
pub mod Process
pub mod Cases
pub mod Control
pub mod Run
pub mod Reaped
pub mod Passing
pub mod AllPass
pub mod Shutdown
pub mod Exit
