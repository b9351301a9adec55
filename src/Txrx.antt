-- ===== src/Txrx.antt =====
-- txrx.c: what is done for each frame besides the rings.
pub mod Ampdu
pub mod Sessions
pub mod Bd
pub mod Fill
pub mod Send
pub mod Receive
mod Tests
