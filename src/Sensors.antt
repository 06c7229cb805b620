-- ===== src/Sensors.antt =====
-- libsensors: the sensors of the phone.
pub mod Compass
pub mod Control
pub mod Isl29030
pub mod IslLaws
pub mod ControlLaws
mod Tests
pub mod Chunks
pub mod Parts
