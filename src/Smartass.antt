-- ===== src/Smartass.antt =====
-- modules/overclock/cpufreq_smartass.c: the "smartass" cpufreq governor.
pub mod State
pub mod Speed
pub mod Timer
pub mod Load
pub mod Decide
pub mod Work
pub mod WorkLaws
pub mod WorkLoop
pub mod Governor
pub mod GovernorLaws
pub mod Stores
mod Tests
