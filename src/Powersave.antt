-- ===== src/Powersave.antt =====
-- modules/overclock/cpufreq_powersave.c: the "powersave" cpufreq governor.
use android_device_motorola.Prelude.{ℕ, List, [], ◌∷◌}
use android_device_motorola.Cpufreq.{
  Policy, GovEvent, gov_start, gov_stop, gov_limits, gov_other, relation_l, Call, driver_target,
}

-- The frequency is the minimum, set at the start and when the limits change.
unfoldable pub cpufreq_governor_powersave : GovEvent → Policy → ℕ × List Call
cpufreq_governor_powersave gov_start p = (0, driver_target p.min relation_l ∷ [])
cpufreq_governor_powersave gov_limits p = (0, driver_target p.min relation_l ∷ [])
cpufreq_governor_powersave gov_stop p = (0, [])
cpufreq_governor_powersave gov_other p = (0, [])
