-- ===== src/Conservative.antt =====
-- modules/overclock/cpufreq_conservative.c: the "conservative" cpufreq governor.
pub mod State
pub mod Check
pub mod CheckLaws
pub mod Tuners
pub mod Governor
pub mod GovernorLaws
mod Tests
