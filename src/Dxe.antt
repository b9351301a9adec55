-- ===== src/Dxe.antt =====
-- dxe.c: the DMA engine's rings.
pub mod State
pub mod Tx
pub mod Rx
pub mod Cyclic
pub mod Init
pub mod Pools
pub mod Setup
pub mod Irq
pub mod Ctl
mod Tests
