-- ===== src/Smd.antt =====
-- smd.c: the command channel to the firmware.
pub mod State
pub mod Receive
pub mod Send
pub mod Scan
pub mod Link
pub mod Keys
pub mod Power
pub mod Ba
pub mod Effects
pub mod Outcome
pub mod Bounds
pub mod Dispatch
pub mod Wire
pub mod Framed
pub mod Nv
pub mod Config
pub mod Caps
mod Tests
pub mod Ind
pub mod Beacon
pub mod Objects
pub mod Sta
pub mod Bss
pub mod Configure
pub mod Answers
pub mod Exchange
