-- ===== src/Smartass/Governor.antt =====
-- cpufreq_governor_smartass, smartass_suspend, and what is set up when the module is loaded.
use android_device_motorola.Prelude.{
  sltb, put, ℕ, ◌+◌, Bool, true, false, not, ◌||◌, List, [], ◌∷◌, ◌++◌, ltb, ◌==◌, ◌!=◌,
  if◌then◌else◌, u32, sub32,
}
use android_device_motorola.Cpufreq.{
  Policy, GovEvent, gov_start, gov_stop, gov_limits, gov_other, IdleHook, cpufreq_idle, relation_h,
  Call, driver_target, del_timer, einval,
}
use android_device_motorola.Smartass.State.{Tunables, SmartassInfo}
use android_device_motorola.Smartass.Speed.{smartass_update_min_max, validate_freq}

-- The state that the CPUs share. `active_count` is an `int`, written as its 32 bits; `sysfs_group`
-- tells whether the attributes are registered.
pub record Global : Type 0 where
  pub tunables : Tunables
  pub suspended : ℕ
  pub active_count : ℕ
  pub pm_idle : IdleHook
  pub pm_idle_old : IdleHook
  pub sysfs_group : Bool

-- What an event leaves: the return value, the calls, and the new states.
pub record Outcome : Type 0 where
  pub ret : ℕ
  pub calls : List Call
  pub global : Global
  pub info : SmartassInfo

-- The case CPUFREQ_GOV_LIMITS. `cur` is the frequency of the CPU's current policy.
unfoldable pub on_limits : Policy → ℕ → Global → SmartassInfo → Outcome
unfolding smartass_update_min_max
on_limits new_policy cur g info =
    let info' = smartass_update_min_max g.tunables info new_policy g.suspended in
    record {
      ret = 0;
      calls = if cur != info'.max_speed then driver_target info'.max_speed relation_h ∷ [] else [];
      global = g;
      info = info';
    }

-- The end of CPUFREQ_GOV_START, which falls through into the next case.
unfoldable pub on_enable : Policy → Global → SmartassInfo → Outcome
unfolding on_limits
on_enable new_policy g info = on_limits new_policy new_policy.cur g (record info { enable = 1 })

-- The case CPUFREQ_GOV_START. `rc` is what `sysfs_create_group` returns.
unfoldable pub on_start : Bool → ℕ → Policy → Global → SmartassInfo → Outcome
unfolding on_enable
on_start online rc new_policy g info =
    if not online || new_policy.cur == 0
    then record { ret = einval; calls = []; global = g; info = info }
    else (let counted = record g { active_count = u32 (g.active_count + 1) } in
        if sltb 1 counted.active_count
        then on_enable new_policy counted info
        else (if rc != 0
            then record { ret = rc; calls = []; global = counted; info = info }
            else on_enable new_policy
                (record counted {
                  sysfs_group = true;
                  pm_idle_old = g.pm_idle;
                  pm_idle = cpufreq_idle;
                })
                info))

-- The case CPUFREQ_GOV_STOP.
unfoldable pub on_stop : Global → SmartassInfo → Outcome
on_stop g info =
    let counted = record g { active_count = sub32 g.active_count 1 } in
    let stopped = record info { enable = 0 } in
    if sltb 1 counted.active_count
    then record { ret = 0; calls = del_timer ∷ []; global = counted; info = stopped }
    else record {
      ret = 0;
      calls = del_timer ∷ [];
      global = record counted { sysfs_group = false; pm_idle = g.pm_idle_old };
      info = stopped;
    }

unfoldable pub cpufreq_governor_smartass :
    GovEvent → Bool → ℕ → Policy → ℕ → Global → SmartassInfo → Outcome
unfolding on_start on_limits on_stop
cpufreq_governor_smartass gov_start online rc new_policy cur g info =
    on_start online rc new_policy g info
cpufreq_governor_smartass gov_limits online rc new_policy cur g info =
    on_limits new_policy cur g info
cpufreq_governor_smartass gov_stop online rc new_policy cur g info = on_stop g info
cpufreq_governor_smartass gov_other online rc new_policy cur g info = record {
  ret = 0;
  calls = [];
  global = g;
  info = info;
}

-- smartass_suspend for the running CPU.
unfoldable pub smartass_suspend : ℕ → Policy → Tunables → SmartassInfo → List Call × SmartassInfo
smartass_suspend suspend policy t info =
    if info.enable == 0 || t.sleep_max_freq == 0
    then ([], info)
    else (let info' = smartass_update_min_max t info policy suspend in
        (
          if suspend != 0
              then (if ltb info'.max_speed policy.cur
                  then driver_target info'.max_speed relation_h ∷ []
                  else [])
              else driver_target (validate_freq info' t.sleep_wakeup_freq) relation_h ∷ [],
          info',
        ))

-- The values that cpufreq_smartass_init gives the tunables and the state of each CPU.
unfoldable pub default_tunables : Tunables
default_tunables = record {
  down_rate_us = 99000;
  up_min_freq = 1200000;
  sleep_max_freq = 250000;
  sleep_wakeup_freq = 1200000;
  awake_min_freq = 0;
  sample_rate_jiffies = 2;
  ramp_up_step = 250000;
  max_ramp_down = 0;
  max_cpu_load = 80;
  min_cpu_load = 20;
}

unfoldable pub init_info : SmartassInfo
init_info = record {
  time_in_idle = 0;
  idle_exit_time = 0;
  freq_change_time = 0;
  freq_change_time_in_idle = 0;
  cur_cpu_load = 0;
  force_ramp_up = 0;
  enable = 0;
  max_speed = 1200000;
  min_speed = 0;
}

-- The loop of smartass_early_suspend and smartass_late_resume over the online CPUs. `self` is
-- `smp_processor_id()`, which smartass_suspend asks for instead of taking its argument.
unfoldable pub suspend_cpus :
    ℕ → ℕ → (ℕ → Policy) → Tunables → List ℕ → (ℕ → SmartassInfo) → List Call × (ℕ → SmartassInfo)
unfolding smartass_suspend
suspend_cpus suspend self policy t [] infos = ([], infos)
suspend_cpus suspend self policy t (i ∷ rest) infos =
    let (cs, info) = smartass_suspend suspend (policy i) t (infos self) in
    let (cs', infos') = suspend_cpus suspend self policy t rest (put infos self info) in
    (cs ++ cs', infos')
