-- ===== src/Smartass/Timer.antt =====
-- The timer and the idle hook of the smartass governor: reset_timer, cpufreq_smartass_timer,
-- cpufreq_idle.
use android_device_motorola.Prelude.{
  sltb, ℕ, ◌+◌, ◌-◌, Bool, not, ◌&&◌, ◌||◌, Option, none, some, List, [], ◌∷◌, ◌++◌, ltb, ◌==◌,
  if◌then◌else◌, u32, sub64,
}
use android_device_motorola.Cpufreq.{
  Policy, Clock, Call, mod_timer, del_timer, cpumask_set, queue_up, queue_down, pm_idle_old,
  percent32,
}
use android_device_motorola.Smartass.State.{Tunables, SmartassInfo}

-- The result of a handler: its calls into the kernel, and the new state of the CPU.
abbrev pub Handled : Type 0
Handled = List Call × SmartassInfo

unfoldable pub reset_timer : Tunables → ℕ → Clock → SmartassInfo → Handled
reset_timer t jiffies now info = (
  mod_timer (u32 (jiffies + t.sample_rate_jiffies)) ∷ [],
  record info { time_in_idle = now.idle; idle_exit_time = now.wall },
)

-- The load over a time of which `delta_idle` was idle.
unfoldable pub load_over : ℕ → ℕ → Option ℕ
load_over delta_idle delta_time =
    if ltb delta_time delta_idle then some 0 else percent32 (delta_time - delta_idle) delta_time

-- The load since the last change of frequency, and the load since the sample was started.
unfoldable pub load_since_change : Clock → SmartassInfo → Option ℕ
unfolding load_over
load_since_change now info =
    load_over (sub64 now.idle info.freq_change_time_in_idle) (sub64 now.wall info.freq_change_time)

abbrev pub sample_idle : Clock → SmartassInfo → ℕ
sample_idle now info = sub64 now.idle info.time_in_idle

abbrev pub sample_time : Clock → SmartassInfo → ℕ
sample_time now info = sub64 now.wall info.idle_exit_time

-- The second half of the timer, with the load measured.
unfoldable pub decide :
    Tunables → ℕ → ℕ → Bool → Policy → Clock → Clock → ℕ → SmartassInfo → Handled
unfolding reset_timer
decide t jiffies nr_running pending policy now again cpu_load old =
    let info = record old { cur_cpu_load = cpu_load } in
    if ltb t.max_cpu_load cpu_load || sample_idle now info == 0
    then (if policy.cur == policy.max
        then ([], info)
        else (if ltb nr_running 1
            then ([], info)
            else (cpumask_set ∷ queue_up ∷ [], record info { force_ramp_up = 1 })))
    else (let (calls, info') =
          if ltb policy.cur info.max_speed && not pending && ltb 0 nr_running
          then reset_timer t jiffies again info
          else ([], info) in
        if policy.cur == policy.min
        then (calls, info')
        else (if ltb (sub64 now.wall info'.freq_change_time) t.down_rate_us
            then (calls, info')
            else (calls ++ (cpumask_set ∷ queue_down ∷ []), info')))

-- The greater of two loads, which are compared as `int`s.
abbrev pub greater_load : ℕ → ℕ → ℕ
greater_load a b = if sltb b a then a else b

-- The branch of the timer after a sample of at least 1 ms.
abbrev pub with_loads : (ℕ → Handled) → Option ℕ → Option ℕ → Option Handled
with_loads k (some long) (some short) = some (k (greater_load long short))
with_loads k _ _ = none

-- `cpufreq_smartass_timer`; `none` is a division by 0. The arguments are the tunables, what the
-- kernel is asked for (jiffies, the run queue, whether the timer is pending, the policy, the clock,
-- and the clock read again by `reset_timer`) and the state of the CPU.
unfoldable pub cpufreq_smartass_timer :
    Tunables → ℕ → ℕ → Bool → Policy → Clock → Clock → SmartassInfo → Option Handled
unfolding reset_timer load_since_change load_over decide
cpufreq_smartass_timer t jiffies nr_running pending policy now again info =
    if info.idle_exit_time == 0 || now.wall == info.idle_exit_time
    then some ([], info)
    else (if ltb (sample_time now info) 1000
        then (with_loads (λ _. if not pending then reset_timer t jiffies again info else ([], info))
            (load_since_change now info) (some 0))
        else with_loads (λ l. decide t jiffies nr_running pending policy now again l info)
            (load_since_change now info) (load_over (sample_idle now info) (sample_time now info)))

-- `cpufreq_idle`. The timer is looked at before and after the old idle function runs.
unfoldable pub cpufreq_idle_step :
    Tunables → ℕ → Bool → Bool → Policy → Clock → SmartassInfo → Handled
unfolding reset_timer
cpufreq_idle_step t jiffies pending_before pending_after policy now info =
    if info.enable == 0
    then (pm_idle_old ∷ [], info)
    else (let before =
          if policy.cur == info.min_speed && pending_before then del_timer ∷ [] else [] in
        let (after, info') =
          if not pending_after then reset_timer t jiffies now info else ([], info) in
        (before ++ (pm_idle_old ∷ after), info'))
