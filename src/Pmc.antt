-- ===== src/Pmc.antt =====
-- pmc.c: entering and leaving beacon-mode power save.
pub mod State
mod Tests
