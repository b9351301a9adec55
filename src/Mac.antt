-- ===== src/Mac.antt =====
-- main.c: the callbacks of mac80211.
pub mod Rates
pub mod Allowed
pub mod Keys
pub mod Ops
pub mod Start
pub mod Probe
pub mod Bands
pub mod Ampdu
pub mod Bss
mod Tests
