-- ===== src/Hal.antt =====
-- hal.h: the messages between the driver and the firmware.
pub mod MsgType
pub mod Enums
pub mod Layout
