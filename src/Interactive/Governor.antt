-- ===== src/Interactive/Governor.antt =====
-- cpufreq_governor_interactive: the events of the interactive governor.
use android_device_motorola.Prelude.{
  ℕ, ◌+◌, Bool, true, false, not, List, [], ◌∷◌, ltb, ◌!=◌, if◌then◌else◌, u32, sub32, sltb,
}
use android_device_motorola.Cpufreq.{
  Policy, GovEvent, gov_start, gov_stop, gov_limits, gov_other, IdleHook, cpufreq_idle, relation_l,
  relation_h, Call, driver_target, del_timer, einval,
}

-- The state that the CPUs share; `policy` tells for which CPU the global was set.
pub record Global : Type 0 where
  pub active_count : ℕ
  pub pm_idle : IdleHook
  pub pm_idle_old : IdleHook
  pub sysfs_group : Bool
  pub policy_cpu : ℕ

pub record Outcome : Type 0 where
  pub ret : ℕ
  pub calls : List Call
  pub global : Global

abbrev pub done : List Call → Global → Outcome
done calls g = record { ret = 0; calls = calls; global = g }

unfoldable pub on_start : Bool → ℕ → Policy → Global → Outcome
on_start online rc new_policy g =
    if not online
    then record { ret = einval; calls = []; global = g }
    else (let counted = record g { active_count = u32 (g.active_count + 1) } in
        if sltb 1 counted.active_count
        then done [] counted
        else (if rc != 0
            then record { ret = rc; calls = []; global = counted }
            else done [] (record counted {
              sysfs_group = true;
              pm_idle_old = g.pm_idle;
              pm_idle = cpufreq_idle;
              policy_cpu = new_policy.cpu;
            })))

unfoldable pub on_stop : Global → Outcome
on_stop g =
    let counted = record g { active_count = sub32 g.active_count 1 } in
    if sltb 1 counted.active_count
    then done [] counted
    else done (del_timer ∷ []) (record counted { sysfs_group = false; pm_idle = g.pm_idle_old })

-- What the limits ask for.
unfoldable pub limit_calls : Policy → List Call
limit_calls p =
    if ltb p.max p.cur
    then driver_target p.max relation_h ∷ []
    else (if ltb p.cur p.min then driver_target p.min relation_l ∷ [] else [])

-- `online` is what `cpu_online` says, and `rc` what `sysfs_create_group` returns.
unfoldable pub cpufreq_governor_interactive : GovEvent → Bool → ℕ → Policy → Global → Outcome
cpufreq_governor_interactive gov_start online rc p g = on_start online rc p g
cpufreq_governor_interactive gov_stop online rc p g = on_stop g
cpufreq_governor_interactive gov_limits online rc p g = done (limit_calls p) g
cpufreq_governor_interactive gov_other online rc p g = done [] g
