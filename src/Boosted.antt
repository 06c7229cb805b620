-- ===== src/Boosted.antt =====
-- modules/overclock/cpufreq_boosted.c: the "boosted" cpufreq governor.
pub mod State
pub mod Speed
pub mod SpeedLaws
pub mod RampUp
pub mod RampDown
pub mod Sampling
pub mod WorkLaws
pub mod Carry
pub mod GovernorLaws
mod Tests
pub mod Timer
pub mod Work
pub mod Governor
pub mod Stores
