-- ===== src/Msm.antt =====
-- wcn36xx_msm/main.c: the platform module behind `ctrl_ops`, over the shared memory channel of the
-- kernel.
pub mod Channel
pub mod Work
pub mod Open
pub mod Device
mod Tests
