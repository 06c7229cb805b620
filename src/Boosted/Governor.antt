-- ===== src/Boosted/Governor.antt =====
-- cpufreq_governor_boosted, boosted_suspend, and what is set up when the module is loaded.
use android_device_motorola.Prelude.{
  ℕ, zero, suc, ◌+◌, Bool, true, false, not, ◌&&◌, ◌||◌, List, [], ◌∷◌, ◌++◌, ltb, ◌==◌, ◌!=◌,
  if◌then◌else◌, u32, sub32, sltb,
}
use android_device_motorola.Cpufreq.{
  Policy, Clock, GovEvent, gov_start, gov_stop, gov_limits, gov_other, IdleHook, cpufreq_idle,
  relation_l, relation_h, Call, driver_target, del_timer, einval,
}
use android_device_motorola.Boosted.State.{Tunables, BoostedInfo, ramp_none}
use android_device_motorola.Boosted.Speed.{boosted_update_min_max, validate_freq}
use android_device_motorola.Boosted.Timer.{reset_timer}

-- The state that the CPUs share. `active_count` is an `int`, written as its 32 bits; `sysfs_group`
-- tells whether the attributes are registered.
pub record Global : Type 0 where
  pub tunables : Tunables
  pub suspended : Bool
  pub active_count : ℕ
  pub pm_idle : IdleHook
  pub pm_idle_old : IdleHook
  pub sysfs_group : Bool

-- What an event leaves: the return value, the calls, and the new states.
pub record Outcome : Type 0 where
  pub ret : ℕ
  pub calls : List Call
  pub global : Global
  pub info : BoostedInfo

-- What an event finds: whether the CPU is online, what `sysfs_create_group` returns, the frequency
-- after the driver's answer, whether the timer is pending, jiffies and the clock.
pub record Found : Type 0 where
  pub online : Bool
  pub rc : ℕ
  pub cur_after : ℕ
  pub pending : Bool
  pub jiffies : ℕ
  pub now : Clock

-- A sample is started below the maximum, if none is running.
unfoldable pub start_sample : Found → ℕ → Policy → List Call → Global → BoostedInfo → Outcome
start_sample f cur new_policy calls g info =
    if ltb cur new_policy.max && not f.pending
    then (let (more, info') = reset_timer g.tunables f.jiffies f.now info in
        record { ret = 0; calls = calls ++ more; global = g; info = info' })
    else record { ret = 0; calls = calls; global = g; info = info }

-- The case CPUFREQ_GOV_LIMITS; `cur` is the frequency of the CPU's current policy.
unfoldable pub on_limits : Found → Policy → ℕ → Global → BoostedInfo → Outcome
on_limits f new_policy cur g old =
    let info = boosted_update_min_max g.tunables new_policy g.suspended old in
    if ltb new_policy.max cur
    then start_sample f f.cur_after new_policy (driver_target new_policy.max relation_h ∷ []) g info
    else (if ltb cur new_policy.min
        then start_sample f f.cur_after new_policy (driver_target new_policy.min relation_l ∷ []) g
            info
        else start_sample f cur new_policy [] g info)

-- The case CPUFREQ_GOV_START.
unfoldable pub on_start : Found → Policy → Global → BoostedInfo → Outcome
on_start f new_policy g old =
    if not f.online || new_policy.cur == 0
    then record { ret = einval; calls = []; global = g; info = old }
    else (let info =
          boosted_update_min_max g.tunables new_policy g.suspended (record old { enable = true }) in
        let counted = record g { active_count = u32 (g.active_count + 1) } in
        if sltb 1 counted.active_count
        then start_sample f new_policy.cur new_policy [] counted info
        else (if f.rc != 0
            then record { ret = f.rc; calls = []; global = counted; info = info }
            else start_sample f new_policy.cur new_policy []
                (record counted {
                  sysfs_group = true;
                  pm_idle_old = g.pm_idle;
                  pm_idle = cpufreq_idle;
                })
                info))

-- The case CPUFREQ_GOV_STOP. The work that is flushed ends before `info` is read.
unfoldable pub on_stop : Global → BoostedInfo → Outcome
on_stop g old =
    let counted = record g { active_count = sub32 g.active_count 1 } in
    let info = record old { enable = false; idle_exit_time = 0 } in
    if sltb 1 counted.active_count
    then record { ret = 0; calls = del_timer ∷ []; global = counted; info = info }
    else record {
      ret = 0;
      calls = del_timer ∷ [];
      global = record counted { sysfs_group = false; pm_idle = g.pm_idle_old };
      info = info;
    }

unfoldable pub cpufreq_governor_boosted :
    GovEvent → Found → Policy → ℕ → Global → BoostedInfo → Outcome
cpufreq_governor_boosted gov_start f new_policy cur g info = on_start f new_policy g info
cpufreq_governor_boosted gov_limits f new_policy cur g info = on_limits f new_policy cur g info
cpufreq_governor_boosted gov_stop f new_policy cur g info = on_stop g info
cpufreq_governor_boosted gov_other f new_policy cur g info = record {
  ret = 0;
  calls = [];
  global = g;
  info = info;
}

-- boosted_suspend for the running CPU: its clock is read once for the statistics of a suspend, and
-- once by reset_timer.
unfoldable pub boosted_suspend :
    Bool → Policy → ℕ → Clock → Clock → Tunables → BoostedInfo → List Call × BoostedInfo
boosted_suspend suspend policy jiffies now again t old =
    if not old.enable
    then ([], old)
    else (let info = boosted_update_min_max t policy suspend old in
        if suspend
        then reset_timer t jiffies again
            (record info { freq_change_time_in_idle = now.idle; freq_change_time = now.wall })
        else (let (calls, info') = reset_timer t jiffies again info in
            (driver_target (validate_freq policy t.sleep_wakeup_freq) relation_l ∷ calls, info')))

-- The loop of boosted_early_suspend and boosted_late_resume. For each of the `n` online CPUs
-- boosted_suspend handles the running one, `smp_processor_id()`.
unfoldable pub suspend_cpus :
    ℕ → Bool → Policy → ℕ → Clock → Clock → Tunables → BoostedInfo → List Call × BoostedInfo
suspend_cpus zero suspend policy jiffies now again t info = ([], info)
suspend_cpus (suc n) suspend policy jiffies now again t info =
    let (calls, info') = boosted_suspend suspend policy jiffies now again t info in
    let (more, info'') = suspend_cpus n suspend policy jiffies now again t info' in
    (calls ++ more, info'')

unfoldable pub boosted_early_suspend :
    ℕ → Policy → ℕ → Clock → Clock → Global → BoostedInfo → Outcome
boosted_early_suspend n policy jiffies now again g info =
    if g.suspended || g.tunables.sleep_ideal_freq == 0
    then record { ret = 0; calls = []; global = g; info = info }
    else (let (calls, info') = suspend_cpus n true policy jiffies now again g.tunables info in
        record { ret = 0; calls = calls; global = record g { suspended = true }; info = info' })

unfoldable pub boosted_late_resume : ℕ → Policy → ℕ → Clock → Clock → Global → BoostedInfo → Outcome
boosted_late_resume n policy jiffies now again g info =
    if not g.suspended
    then record { ret = 0; calls = []; global = g; info = info }
    else (let (calls, info') = suspend_cpus n false policy jiffies now again g.tunables info in
        record { ret = 0; calls = calls; global = record g { suspended = false }; info = info' })

-- The values that cpufreq_boosted_init gives the tunables and the state of each CPU. It leaves
-- `old_freq` and `ideal_speed` at the 0 of static storage.
unfoldable pub default_tunables : Tunables
default_tunables = record {
  awake_ideal_freq = 500000;
  sleep_ideal_freq = 200000;
  ramp_up_step = 160000;
  ramp_down_step = 160000;
  max_cpu_load = 70;
  min_cpu_load = 40;
  up_rate_us = 52000;
  down_rate_us = 97000;
  sleep_wakeup_freq = 300000;
  sample_rate_jiffies = 2;
  debug_mask = 0;
}

unfoldable pub init_info : BoostedInfo
init_info = record {
  time_in_idle = 0;
  idle_exit_time = 0;
  freq_change_time = 0;
  freq_change_time_in_idle = 0;
  cur_cpu_load = 0;
  old_freq = 0;
  ramp_dir = ramp_none;
  enable = false;
  ideal_speed = 0;
}
